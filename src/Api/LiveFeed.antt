-- ===== src/Api/LiveFeed.antt =====
-- services/infra/src/api/live-feed.ts: the bus of the live feed, in memory.
pub mod Laws
use inspect_element.Prelude.{
  ℕ, Bool, true, false, not, Option, none, some, List, [], ◌∷◌, ◌++◌, ◌==◌, if◌then◌else◌, is_some,
}
use inspect_element.Prelude.Texts.{Text, text_eq, to_lower}
use inspect_element.Prelude.Tables.{find, select, update, any}

-- A callback is known by a number. A `Set` keeps its elements in the order of insertion.
pub record Listeners : Type 0 where
  pub key : Text
  pub callbacks : List ℕ

-- `new Map<string, Set<…>>()`
abbrev pub Bus : Type 0
Bus = List Listeners

abbrev pub is_key : Text → Listeners → Bool
is_key key l = text_eq l.key key

-- `set.add(callback)`
unfoldable pub add : ℕ → List ℕ → List ℕ
unfolding any
add callback set = if any (λ c. c == callback) set then set else set ++ callback ∷ []

-- `set.delete(callback)`
unfoldable pub delete : ℕ → List ℕ → List ℕ
delete callback set = select (λ c. not (c == callback)) set

abbrev pub with_callbacks : (List ℕ → List ℕ) → Listeners → Listeners
with_callbacks f l = record l { callbacks = f l.callbacks }

abbrev pub empty_set : Text → Listeners
empty_set key = record { key = key; callbacks = [] }

unfoldable pub ensured : Text → Bus → Bus
ensured key bus = if is_some (find (is_key key) bus) then bus else bus ++ empty_set key ∷ []

unfoldable pub subscribe : Text → ℕ → Bus → Bus
subscribe owner callback bus =
    let key = to_lower owner in
    update (is_key key) (with_callbacks (add callback)) (ensured key bus)

abbrev pub is_drained : Option Listeners → Bool
is_drained none = false
is_drained (some l) = elim l.callbacks [ [] ↦ true | c ∷ cs ↦ false ]

-- What `subscribe` returns.
unfoldable pub unsubscribe : Text → ℕ → Bus → Bus
unsubscribe owner callback bus =
    let key = to_lower owner in
    let left = update (is_key key) (with_callbacks (delete callback)) bus in
    if is_drained (find (is_key key) left) then select (λ l. not (is_key key l)) left else left

abbrev pub callbacks_of : Option Listeners → List ℕ
callbacks_of none = []
callbacks_of (some l) = l.callbacks

-- The callbacks that are called, in order; what one of them throws does not reach the others.
unfoldable pub emit : Text → Bus → List ℕ
emit owner bus = callbacks_of (find (is_key (to_lower owner)) bus)
