-- ===== src/Screening/Laws.antt =====
-- About services/infra/src/screening and gemini: the bounds of the scores, and what advice may do.
use inspect_element.Prelude.{
  ℕ, ◌*◌, ◌≤◌, ◌↔◌, ◌≡◌, refl, sym, subst, Bool, true, Bool-cases, ◌⊎◌, inl, inr, arith, ◌&&◌,
}
use inspect_element.Prelude.Texts.{Text}
use inspect_element.Prelude.Integers.{pos, negsuc}
use inspect_element.Prelude.Results.{Result, ok, err, ◌>>=◌, Result-cases}
use inspect_element.Screening.Score.{
  Score, not_a_number, minus_infinity, finite, infinity, max_zero, min_with, InRange,
  accepts_between, reaches,
}
use inspect_element.Screening.Screener.{ScreeningResult, unscreened, screen}
use inspect_element.Screening.Gemini.{
  GeminiScreenOutput, ScreenEnv, ScreenRequest, ScreenResponse, screen_fallback, or_fallback,
  validated, build_screen_prompt, screen_trace, post_screen,
}

clamped-InRange : (m : ℕ) (s : Score) → InRange m (min_with m (max_zero s)) ⊎ (s ≡ not_a_number)
unfolding min_with max_zero
clamped-InRange m not_a_number = inr refl
clamped-InRange m minus_infinity = inl (ground arith)
clamped-InRange m (finite (pos n)) = inl (ground arith)
clamped-InRange m (finite (negsuc n)) = inl (ground arith)
clamped-InRange m infinity = inl (omega arith)

abbrev clamped : ℕ → ScreeningResult → ScreeningResult
clamped scale r = record r {
  injection_score = min_with (100 * scale) (max_zero r.injection_score);
  advisory = true;
}

-- What holds of the two refusals and of each clamped answer holds of the screening.
screen-holds :
    (P : ScreeningResult → Type 0) (scale : ℕ) (parses : Text → Bool)
    (provider : Text → Result ScreeningResult) (now trace_json : Text)
    → ((explanation : Text) → P (unscreened explanation now))
    → ((r : ScreeningResult) → provider trace_json ≡ ok r → P (clamped scale r))
    → P (screen scale parses provider now trace_json)
unfolding screen
screen-holds P scale parses provider now trace_json refusals answers =
    elim (Bool-cases (parses trace_json)) [
      | inr invalid ↦ rw invalid (refusals _)
      | inl valid ↦ rw valid (elim (Result-cases (provider trace_json)) [
        | inl (r, answered) ↦ rw answered (answers r answered)
        | inr (e, thrown) ↦ rw thrown (refusals _)
      ])
    ]

abbrev IsAdvice : ℕ → Result ScreeningResult → ScreeningResult → Type 0
IsAdvice scale answer s =
    (s.advisory ≡ true)
    × (InRange (100 * scale) s.injection_score
        ⊎ ((r : ScreeningResult) × (answer ≡ ok r) × (r.injection_score ≡ not_a_number)))

clamped-IsAdvice :
    (scale : ℕ) (answer : Result ScreeningResult) (r : ScreeningResult)
    → answer ≡ ok r
    → IsAdvice scale answer (clamped scale r)
clamped-IsAdvice scale answer r h = elim (clamped-InRange (100 * scale) r.injection_score) [
  | inl within ↦ (refl, inl within)
  | inr nan ↦ (refl, inr (r, h, nan))
]

-- Whatever the provider answers or throws, a screening is marked as advice, and its score lies from 0
-- to 100, unless the provider itself answered NaN.
pub screen-InRange :
    (scale : ℕ) (parses : Text → Bool) (provider : Text → Result ScreeningResult)
    (now trace_json : Text)
    → ((screen scale parses provider now trace_json).advisory ≡ true)
      × (InRange (100 * scale) (screen scale parses provider now trace_json).injection_score
          ⊎ ((r : ScreeningResult) × (provider trace_json ≡ ok r)
              × (r.injection_score ≡ not_a_number)))
screen-InRange scale parses provider now trace_json =
    screen-holds (IsAdvice scale (provider trace_json)) scale parses provider now trace_json
      (λ explanation. (refl, inl (omega arith))) (clamped-IsAdvice scale (provider trace_json))

accepted-InRange : (m : ℕ) (s : Score) → accepts_between m s ≡ true → InRange m s
unfolding accepts_between
accepted-InRange m not_a_number h = cc
accepted-InRange m minus_infinity h = cc
accepted-InRange m (finite (pos n)) h = ground arith
accepted-InRange m (finite (negsuc n)) h = cc
accepted-InRange m infinity h = cc

-- Of a score in the bounds.
reaches_iff :
    (m : ℕ) (s : Score) (threshold : ℕ)
    → InRange m s
    → (reaches s threshold ≡ true) ↔ ((n : ℕ) × (s ≡ finite (pos n)) × (threshold ≤ n))
unfolding reaches
reaches_iff m not_a_number threshold h = absurd h
reaches_iff m minus_infinity threshold h = absurd h
reaches_iff m (finite (pos n)) threshold h =
    (λ high. (n, refl, ground arith), λ (k, same, enough). let eq : n ≡ k = cc in ground arith)
reaches_iff m (finite (negsuc n)) threshold h = absurd h
reaches_iff m infinity threshold h = absurd h

or_fallback-InRange :
    (scale : ℕ) (m : Result GeminiScreenOutput)
    → InRange scale (or_fallback (m >>= λ o. validated scale o)).injection_score
unfolding screen_fallback
or_fallback-InRange scale (err e) = omega arith
or_fallback-InRange scale (ok o) = elim (Bool-cases (accepts_between scale o.injection_score)) [
  | inl within ↦ rw within (accepted-InRange scale o.injection_score within)
  | inr outside ↦ rw outside (omega arith)
]

bind_bind :
    {A B : Type 0} (m : Result A) (f : A → Result B) (C : Type 0) (g : B → Result C)
    → (m >>= λ a. f a >>= g) ≡ ((m >>= f) >>= g)
bind_bind (ok a) f C g = refl
bind_bind (err e) f C g = refl

module _ (scale : ℕ) (generate : Text → Result Text)
    (parse : Text → Result GeminiScreenOutput) where
  screen_trace-InRange :
      (env : ScreenEnv) (r : ScreenRequest)
      → InRange scale (screen_trace scale generate parse env r).injection_score
  unfolding screen_trace
  screen_trace-InRange env r = elim (Bool-cases env.has_api_key) [
    | inr missing ↦ rw missing (unfold screen_fallback in omega arith)
    | inl there ↦ rw there (
        subst (λ m. InRange scale (or_fallback m).injection_score)
          (sym (bind_bind (generate (build_screen_prompt r)) parse _ (λ o. validated scale o)))
          (or_fallback-InRange scale (generate (build_screen_prompt r) >>= parse)))
  ]

  post_screen-output :
      (env : ScreenEnv) (r : ScreenRequest) (a : ScreenResponse)
      → post_screen scale generate parse env r ≡ ok a
      → (a.advisory_only ≡ true)
        × (a.output ≡ screen_trace scale generate parse env r)
        × (a.hard_mode_triggered
            ≡ (env.hard_mode && reaches a.output.injection_score env.hard_threshold))
  unfolding post_screen
  post_screen-output env r a h = ground arith

  -- An answer of the model's screening is marked as advice, its score is a number from 0 to 1, whatever
  -- the model answers or throws, and the hard mode is triggered exactly where it is set and the score
  -- is the threshold or more.
  pub post_screen-InRange :
      (env : ScreenEnv) (r : ScreenRequest) (a : ScreenResponse)
      → post_screen scale generate parse env r ≡ ok a
      → (a.advisory_only ≡ true)
        × InRange scale a.output.injection_score
        × ((a.hard_mode_triggered ≡ true) ↔ (
            (env.hard_mode ≡ true)
            × ((n : ℕ) × (a.output.injection_score ≡ finite (pos n)) × (env.hard_threshold ≤ n))))
  post_screen-InRange env r a h =
      let (advice, output, triggered) = post_screen-output env r a h in
      let within =
        subst (λ (o : GeminiScreenOutput). InRange scale o.injection_score) (sym output)
          (screen_trace-InRange env r) in
      let (reached, at_least) =
        reaches_iff scale a.output.injection_score env.hard_threshold within in
      (
        advice,
        within,
        (
          λ on. (ground arith, reached (ground arith)),
          λ (on, enough). let high = at_least enough in ground arith,
        ),
      )
