-- ===== src/Web/Theater/Script.antt =====
-- About the shape of the scripts of apps/web/src/components/demo/demo-visualizer.ts.
use inspect_element.Prelude.{
  ℕ, zero, suc, ◌+◌, ◌≤◌, ◌<◌, ◌≡◌, refl, Bool, true, false, ◌&&◌, not, some, List, [], ◌∷◌,
  get_elem?, length, arith,
}
use inspect_element.Web.Phases.{
  DemoScenario, legit, blocked, overspend, Phase, get_phases, get_terminal_index, legit_phases,
  blocked_phases, overspend_phases,
}
use inspect_element.Web.Theater.{is_terminal_kind, is_hold_kind}

-- A script ends with a hold for the result and the last frame, and has no other of them.
pub is_script : List Phase → Bool
is_script [] = false
is_script (x ∷ []) = false
is_script (x ∷ y ∷ []) =
    is_hold_kind x.kind
    && x.holds_for_real_result
    && is_terminal_kind y.kind
    && not (is_terminal_kind x.kind)
is_script (x ∷ y ∷ z ∷ ps) =
    let rest = is_script (y ∷ z ∷ ps) in
    not (is_hold_kind x.kind) && not (is_terminal_kind x.kind) && rest

pub scripts : (s : DemoScenario) → is_script (get_phases s) ≡ true
unfolding is_script get_phases legit_phases blocked_phases overspend_phases
scripts legit = refl
scripts blocked = refl
scripts overspend = refl

-- The phase before the last one, and the phases before it.
pub data IsAt (i : ℕ) (ps : List Phase) : Type 0 where
  holding :
      (x : Phase)
      → get_elem? ps i ≡ some x
      → is_hold_kind x.kind ≡ true
      → x.holds_for_real_result ≡ true
      → is_terminal_kind x.kind ≡ false
      → IsAt i ps
  moving :
      (x : Phase)
      → get_elem? ps i ≡ some x
      → is_hold_kind x.kind ≡ false
      → is_terminal_kind x.kind ≡ false
      → i + 2 < length ps
      → IsAt i ps

later : {i : ℕ} {ps : List Phase} (x : Phase) → IsAt i ps → IsAt (suc i) (x ∷ ps)
later x (holding y at h r t) = holding y at h r t
later x (moving y at h t lt) = moving y at h t (omega arith)

pub is_script-IsAt : (i : ℕ) (ps : List Phase) → is_script ps ≡ true → i + 1 < length ps → IsAt i ps
unfolding is_script
is_script-IsAt i [] h lt = absurd (cc h)
is_script-IsAt i (x ∷ []) h lt = absurd (cc h)
is_script-IsAt zero (x ∷ y ∷ []) h lt = holding x refl (ground arith) (ground arith) (ground arith)
is_script-IsAt (suc i) (x ∷ y ∷ []) h lt = absurd (omega arith)
is_script-IsAt zero (x ∷ y ∷ z ∷ ps) h lt =
    moving x refl (ground arith) (ground arith) (omega arith)
is_script-IsAt (suc i) (x ∷ y ∷ z ∷ ps) h lt =
    later x (is_script-IsAt i (y ∷ z ∷ ps) (ground arith) (omega arith))

pub long : (s : DemoScenario) → 4 ≤ get_terminal_index s
unfolding get_terminal_index get_phases legit_phases blocked_phases overspend_phases
long legit = omega arith
long blocked = omega arith
long overspend = omega arith
