-- ===== src/Api/LiveFeed/Laws.antt =====
-- About services/infra/src/api/live-feed.ts: the bus implements a set of pairs of owner and callback.
use inspect_element.Prelude.{
  ℕ, ◌+◌, max, ◌≡◌, refl, Bool, true, false, not, ◌&&◌, none, some, List, [], ◌∷◌, ◌++◌, arith,
  ◌==◌, if◌then◌else◌, is_some,
}
use inspect_element.Prelude.Texts.{Text, text_eq, text_eq_iff, to_lower}
use inspect_element.Prelude.Tables.{find, select, update, any, map_option}
use inspect_element.Api.LiveFeed.{
  Listeners, Bus, is_key, add, delete, with_callbacks, empty_set, ensured, subscribe, unsubscribe,
  callbacks_of, emit,
}

-- How often a callback is called.
abbrev pub count : ℕ → List ℕ → ℕ
count a [] = 0
count a (x ∷ xs) = (if x == a then 1 else 0) + count a xs

count-append :
    (a c : ℕ) (xs : List ℕ) → count a (xs ++ c ∷ []) ≡ count a xs + (if c == a then 1 else 0)
count-append a c [] = ground arith
count-append a c (x ∷ xs) = ground (arith, count-append a c xs)

count-any : (c : ℕ) (xs : List ℕ) → any (λ x. x == c) xs ≡ (if count c xs == 0 then false else true)
unfolding any
count-any c [] = refl
count-any c (x ∷ xs) = ground (arith, count-any c xs)

count-add :
    (a c : ℕ) (xs : List ℕ)
    → count a (add c xs) ≡ (if c == a then max 1 (count a xs) else count a xs)
unfolding add
count-add a c xs = ground (arith, count-any c xs, count-append a c xs)

count-delete : (a c : ℕ) (xs : List ℕ) → count a (delete c xs) ≡ (if c == a then 0 else count a xs)
unfolding delete select
count-delete a c [] = ground arith
count-delete a c (x ∷ xs) = ground (arith, count-delete a c xs)

find-update :
    (key k : Text) (f : List ℕ → List ℕ) (bus : Bus)
    → find (is_key k) (update (is_key key) (with_callbacks f) bus) ≡ (
        if text_eq key k
        then map_option (with_callbacks f) (find (is_key k) bus)
        else find (is_key k) bus)
unfolding find update
find-update key k f [] = ground arith
find-update key k f (l ∷ bus) =
    ground (
      arith,
      text_eq_iff key k,
      text_eq_iff l.key k,
      text_eq_iff l.key key,
      find-update key k f bus,
    )

find-select :
    (key k : Text) (bus : Bus)
    → find (is_key k) (select (λ l. not (is_key key l)) bus)
      ≡ (if text_eq key k then none else find (is_key k) bus)
unfolding find select
find-select key k [] = ground arith
find-select key k (l ∷ bus) =
    ground
      (arith, text_eq_iff key k, text_eq_iff l.key k, text_eq_iff l.key key, find-select key k bus)

find-append :
    (k : Text) (bus : Bus) (l : Listeners)
    → find (is_key k) (bus ++ l ∷ []) ≡ (
        if is_some (find (is_key k) bus)
        then find (is_key k) bus
        else if is_key k l
        then some l
        else none)
unfolding find
find-append k [] l = refl
find-append k (x ∷ bus) l = ground (arith, find-append k bus l)

-- How often an event for a key reaches a callback.
abbrev calls : Bus → Text → ℕ → ℕ
calls bus k a = count a (callbacks_of (find (is_key k) bus))

calls-subscribe :
    (owner : Text) (c : ℕ) (bus : Bus) (k : Text) (a : ℕ)
    → calls (subscribe owner c bus) k a
      ≡ (if text_eq (to_lower owner) k && (c == a) then max 1 (calls bus k a) else calls bus k a)
unfolding subscribe ensured
calls-subscribe owner c bus k a =
    let key = to_lower owner in
    ground (
      arith,
      find-update key k (add c) (ensured key bus),
      find-append k bus (empty_set key),
      text_eq_iff key k,
      count-add a c (callbacks_of (find (is_key k) bus)),
      count-add a c [],
    )

calls-unsubscribe :
    (owner : Text) (c : ℕ) (bus : Bus) (k : Text) (a : ℕ)
    → calls (unsubscribe owner c bus) k a
      ≡ (if text_eq (to_lower owner) k && (c == a) then 0 else calls bus k a)
unfolding unsubscribe
calls-unsubscribe owner c bus k a =
    let key = to_lower owner in
    let left = update (is_key key) (with_callbacks (delete c)) bus in
    ground (
      arith,
      find-update key k (delete c) bus,
      find-select key k left,
      text_eq_iff key k,
      count-delete a c (callbacks_of (find (is_key k) bus)),
    )

pub data BusCall : Type 0 where
  subscribes : Text → ℕ → BusCall
  unsubscribes : Text → ℕ → BusCall

pub bus_step : BusCall → Bus → Bus
bus_step (subscribes owner c) bus = subscribe owner c bus
bus_step (unsubscribes owner c) bus = unsubscribe owner c bus

-- The bus after calls in the order of the list.
unfoldable pub run : List BusCall → Bus → Bus
unfolding bus_step
run [] bus = bus
run (c ∷ cs) bus = run cs (bus_step c bus)

-- What the bus stands for: which callback listens to which key.
abbrev pub Listening : Type 0
Listening = Text → ℕ → Bool

abbrev pub set_listening : Text → ℕ → Bool → Listening → Listening
set_listening owner c value f k a = if text_eq (to_lower owner) k && (c == a) then value else f k a

abbrev pub abstract_step : BusCall → Listening → Listening
abstract_step (subscribes owner c) f = set_listening owner c true f
abstract_step (unsubscribes owner c) f = set_listening owner c false f

unfoldable pub abstract_run : List BusCall → Listening → Listening
abstract_run [] f = f
abstract_run (c ∷ cs) f = abstract_run cs (abstract_step c f)

-- The bus calls a callback once if it listens, and not at all if it does not.
abbrev Implements : Bus → Listening → Type 0
Implements bus f = (k : Text) (a : ℕ) → calls bus k a ≡ (if f k a then 1 else 0)

bus_step-Implements :
    (c : BusCall) (bus : Bus) (f : Listening)
    → Implements bus f
    → Implements (bus_step c bus) (abstract_step c f)
unfolding bus_step
bus_step-Implements (subscribes owner c) bus f h k a =
    ground (arith, h k a, calls-subscribe owner c bus k a)
bus_step-Implements (unsubscribes owner c) bus f h k a =
    ground (arith, h k a, calls-unsubscribe owner c bus k a)

run-Implements :
    (cs : List BusCall) (bus : Bus) (f : Listening)
    → Implements bus f
    → Implements (run cs bus) (abstract_run cs f)
unfolding run abstract_run
run-Implements [] bus f h = h
run-Implements (c ∷ cs) bus f h =
    run-Implements cs (bus_step c bus) (abstract_step c f) (bus_step-Implements c bus f h)

-- After any subscriptions and cancellations on a new bus, an event for an owner calls a callback
-- exactly once if the last of these that named both, the owner in any letter case, subscribed it, and
-- not at all otherwise.
pub emit-run :
    (cs : List BusCall) (owner : Text) (a : ℕ)
    → count a (emit owner (run cs []))
      ≡ (if abstract_run cs (λ _ _. false) (to_lower owner) a then 1 else 0)
unfolding emit find
emit-run cs owner a = run-Implements cs [] (λ _ _. false) (λ k b. refl) (to_lower owner) a
