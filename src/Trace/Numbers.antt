-- ===== src/Trace/Numbers.antt =====
-- About packages/trace/src/serialize.ts: values whose numbers are all integers.
use inspect_element.Prelude.{◌≡◌, refl, List, [], ◌∷◌, true, false}
use inspect_element.Prelude.Texts.{Text}
use inspect_element.Prelude.Results.{ok}
use inspect_element.Canonical.Value.{
  Json, null, undefined, boolean, integer, fraction, not_finite, bigint, string, array, object,
  Items, no_items, item, Entries, no_entries, entry,
}
use inspect_element.Canonical.Encode.{Pair, object_text, array_text}
use inspect_element.Canonical.Stringify.{stringify, stringify_items, stringify_entries}

-- No number in the value is a fraction or not finite.
unfoldable mutual
  pub IsWhole : Json → Type 0
  IsWhole (fraction t) = ⊥
  IsWhole not_finite = ⊥
  IsWhole (array vs) = AreWhole vs
  IsWhole (object es) = AreWholeEntries es
  IsWhole v = Unit

  pub AreWhole : Items → Type 0
  AreWhole no_items = Unit
  AreWhole (item v vs) = IsWhole v × AreWhole vs

  pub AreWholeEntries : Entries → Type 0
  AreWholeEntries no_entries = Unit
  AreWholeEntries (entry k v es) = IsWhole v × AreWholeEntries es

mutual
  unfolding IsWhole stringify

  pub stringify-IsWhole : (v : Json) → IsWhole v → (t : Text) × (stringify v ≡ ok t)
  stringify-IsWhole null h = (_, refl)
  stringify-IsWhole undefined h = (_, refl)
  stringify-IsWhole (boolean true) h = (_, refl)
  stringify-IsWhole (boolean false) h = (_, refl)
  stringify-IsWhole (integer n) h = (_, refl)
  stringify-IsWhole (fraction t) h = absurd h
  stringify-IsWhole not_finite h = absurd h
  stringify-IsWhole (bigint n) h = (_, refl)
  stringify-IsWhole (string s) h = (_, refl)
  stringify-IsWhole (array vs) h =
      let (ts, e) = stringify_items-AreWhole vs h in (array_text ts, rw e refl)
  stringify-IsWhole (object es) h =
      let (ps, e) = stringify_entries-AreWhole es h in (object_text ps, rw e refl)

  stringify_items-AreWhole :
      (vs : Items) → AreWhole vs → (ts : List Text) × (stringify_items vs ≡ ok ts)
  stringify_items-AreWhole no_items h = ([], refl)
  stringify_items-AreWhole (item v vs) h =
      let (t, e) = stringify-IsWhole v h.0 in
      let (ts, es) = stringify_items-AreWhole vs h.1 in (t ∷ ts, rw e (rw es refl))

  stringify_entries-AreWhole :
      (es : Entries) → AreWholeEntries es → (ps : List Pair) × (stringify_entries es ≡ ok ps)
  stringify_entries-AreWhole no_entries h = ([], refl)
  stringify_entries-AreWhole (entry k v es) h =
      let (t, e) = stringify-IsWhole v h.0 in
      let (ps, rest) = stringify_entries-AreWhole es h.1 in ((k, t) ∷ ps, rw e (rw rest refl))
