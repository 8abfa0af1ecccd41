-- ===== src/Web/Theater/Laws.antt =====
-- About apps/web/src/components/demo/use-demo-visualizer.ts: what the last frame rests on.
use inspect_element.Prelude.{
  ◌+◌, ◌≤◌, ◌<◌, ◌≡◌, refl, sym, subst, ◌⊎◌, inl, inr, Bool, true, false, ◌&&◌, Option, none, some,
  get_elem?, arith, ◌==◌, if◌then◌else◌, Bool-cases,
}
use inspect_element.Web.Phases.{Phase, get_phases, get_terminal_index}
use inspect_element.Web.Terminal.{DemoStatus, is_known, can_leave_hold}
use inspect_element.Web.Theater.{
  TheaterMode, waiting, playing, paused, stepping, settled, Theater, Props, is_terminal_kind,
  is_hold_kind, advance, act_at, schedule_in, schedule, rendered, same_mode, play, pause, step,
  replay, tick, result_arrives, new_run, opened, current_phase, is_terminal,
}
use inspect_element.Web.Theater.Script.{IsAt, holding, moving, is_script-IsAt, scripts, long}

-- The last frame is reached with the result only, and no timer runs that would reach it without.
data Honest (p : Props) (t : Theater) : Type 0 where
  informed :
      is_known p.real_result ≡ true → t.phase_index ≤ get_terminal_index p.scenario → Honest p t
  calm : t.phase_index + 1 < get_terminal_index p.scenario → Honest p t
  still : t.phase_index < get_terminal_index p.scenario → t.timer ≡ false → Honest p t

-- With the timer stopped.
Honest-clean :
    (p : Props) (t : Theater) (m : TheaterMode)
    → Honest p t
    → Honest p (record { phase_index = t.phase_index; mode = m; timer = false })
Honest-clean p t m (informed k le) = informed k le
Honest-clean p t m (calm lt) = calm lt
Honest-clean p t m (still lt e) = still lt refl

Honest-bounded :
    (p : Props) (t : Theater) → Honest p t → t.phase_index ≤ get_terminal_index p.scenario
Honest-bounded p t (informed k le) = le
Honest-bounded p t (calm lt) = omega arith
Honest-bounded p t (still lt e) = omega arith

Honest-below :
    (p : Props) (t : Theater)
    → is_known p.real_result ≡ false
    → Honest p t
    → t.phase_index < get_terminal_index p.scenario
Honest-below p t u (informed k le) = absurd cc
Honest-below p t u (calm lt) = omega arith
Honest-below p t u (still lt e) = lt

act_at-bounded :
    (p : Props) (b : Bool) (t : Theater) (o : Option Phase)
    → t.phase_index ≤ get_terminal_index p.scenario
    → (act_at p b t o).phase_index ≤ get_terminal_index p.scenario
unfolding advance
act_at-bounded p b t none le = le
act_at-bounded p b t (some x) le = ground arith

-- A hold without the result: nothing is done.
act_at-holding :
    (p : Props) (b : Bool) (t : Theater) (x : Phase)
    → is_known p.real_result ≡ false
    → is_hold_kind x.kind ≡ true
    → x.holds_for_real_result ≡ true
    → is_terminal_kind x.kind ≡ false
    → act_at p b t (some x) ≡ t
unfolding can_leave_hold
act_at-holding p b t x u h r e = rw e (rw h (rw r (rw u refl)))

act_before :
    (p : Props) (b : Bool) (t : Theater)
    → t.timer ≡ false
    → t.phase_index < get_terminal_index p.scenario
    → is_known p.real_result ≡ false
    → IsAt t.phase_index (get_phases p.scenario)
    → Honest p (act_at p b t (get_elem? (get_phases p.scenario) t.phase_index))
unfolding get_terminal_index advance
act_before p b t e lt u (holding x at h r last) =
    rw at (subst (Honest p) (sym (act_at-holding p b t x u h r last)) (still lt e))
act_before p true t e lt u (moving x at h last more) =
    rw at (rw last (rw h (still (omega arith) e)))
act_before p false t e lt u (moving x at h last more) = rw at (rw last (rw h (calm (omega arith))))

act_at-Honest :
    (p : Props) (b : Bool) (t : Theater)
    → t.timer ≡ false
    → Honest p t
    → Honest p (act_at p b t (get_elem? (get_phases p.scenario) t.phase_index))
unfolding get_terminal_index
act_at-Honest p b t e h = elim (Bool-cases (is_known p.real_result)) [
  | inl k ↦ informed k (act_at-bounded p b t _ (Honest-bounded p t h))
  | inr u ↦
      let lt : t.phase_index < get_terminal_index p.scenario = Honest-below p t u h in
      act_before p b t e lt u (is_script-IsAt t.phase_index _ (scripts p.scenario) (omega arith))
]

schedule_in-Honest :
    (p : Props) (t : Theater) (m : TheaterMode)
    → t.timer ≡ false
    → Honest p t
    → Honest p (schedule_in p t m)
schedule_in-Honest p t waiting e h = h
schedule_in-Honest p t playing e h = act_at-Honest p false t e h
schedule_in-Honest p t paused e h = h
schedule_in-Honest p t stepping e h = act_at-Honest p true t e h
schedule_in-Honest p t settled e h = h

schedule-Honest : (p : Props) (t : Theater) → Honest p t → Honest p (schedule p t)
unfolding schedule
schedule-Honest p t h =
    schedule_in-Honest p (record t { timer = false }) t.mode refl (Honest-clean p t t.mode h)

rendered-Honest : (p : Props) (old new : Theater) → Honest p new → Honest p (rendered p old new)
unfolding rendered
rendered-Honest p old new h =
    elim (Bool-cases ((old.phase_index == new.phase_index) && same_mode old.mode new.mode)) [
      | inl same ↦ rw same h
      | inr changed ↦ rw changed (schedule-Honest p new h)
    ]

-- What happens to the theater: its five controls, its timer, the result of the run, and a new run.
-- Within a run the result is not taken back: what arrives is known, or nothing was known before.
pub data Move : Props → Theater → Props → Theater → Type 0 where
  plays : {p : Props} {t : Theater} → Move p t p (play p t)
  pauses : {p : Props} {t : Theater} → Move p t p (pause p t)
  steps : {p : Props} {t : Theater} → Move p t p (step p t)
  replays : {p : Props} {t : Theater} → Move p t p (replay p t)
  ticks : {p : Props} {t : Theater} → Move p t p (tick p t)
  arrives :
      {p : Props} {t : Theater} (r : DemoStatus)
      → (is_known p.real_result ≡ false) ⊎ (is_known (some r) ≡ true)
      → Move p t (record p { real_result = some r }) (result_arrives r p t)
  starts :
      {p : Props} {t : Theater} (p' : Props) (auto_play props_changed : Bool)
      → Move p t p' (new_run auto_play props_changed p' t)

pub data Reach : Props → Theater → Type 0 where
  open_page : {p : Props} (auto_play : Bool) → Reach p (opened auto_play p)
  moves : {p p' : Props} {t t' : Theater} → Reach p t → Move p t p' t' → Reach p' t'

fired-Honest :
    (p : Props) (t : Theater) (b : Bool)
    → t.timer ≡ b
    → Honest p t
    → Honest p (
        if b
        then rendered p t (record t { phase_index = advance p t.phase_index; timer = false })
        else t)
unfolding advance
fired-Honest p t false e h = h
fired-Honest p t true e (informed k le) = rendered-Honest p t _ (informed k (omega arith))
fired-Honest p t true e (calm lt) = rendered-Honest p t _ (still (omega arith) refl)
fired-Honest p t true e (still lt off) = absurd cc

Honest-mode :
    (p : Props) (t : Theater) (m : TheaterMode) → Honest p t → Honest p (record t { mode = m })
Honest-mode p t m (informed k le) = informed k le
Honest-mode p t m (calm lt) = calm lt
Honest-mode p t m (still lt e) = still lt e

arrives-Honest :
    (r : DemoStatus) (p : Props) (t : Theater)
    → (is_known p.real_result ≡ false) ⊎ (is_known (some r) ≡ true)
    → Honest p t
    → Honest (record p { real_result = some r }) t
arrives-Honest r p t (inr k) h = informed k (Honest-bounded p t h)
arrives-Honest r p t (inl u) (informed k le) = absurd cc
arrives-Honest r p t (inl u) (calm lt) = calm lt
arrives-Honest r p t (inl u) (still lt e) = still lt e

low : (p : Props) (b : Bool) → (if b then advance p 0 else 0) + 1 < get_terminal_index p.scenario
unfolding advance
low p true = omega (arith, long p.scenario)
low p false = omega (arith, long p.scenario)

new_run-Honest : (a c : Bool) (p : Props) (t : Theater) → Honest p (new_run a c p t)
unfolding new_run
new_run-Honest a c p t = rendered-Honest p t _ (calm (low p _))

move-Honest : {p p' : Props} {t t' : Theater} → Move p t p' t' → Honest p t → Honest p' t'
unfolding play pause step replay result_arrives tick
move-Honest (plays {p = p} {t = t}) h = rendered-Honest p t _ (Honest-mode p t _ h)
move-Honest (pauses {p = p} {t = t}) h = rendered-Honest p t _ (Honest-clean p t _ h)
move-Honest (steps {p = p} {t = t}) h = rendered-Honest p t _ (Honest-clean p t _ h)
move-Honest (replays {p = p} {t = t}) h =
    rendered-Honest p t _ (calm (omega (arith, long p.scenario)))
move-Honest (ticks {p = p} {t = t}) h = fired-Honest p t t.timer refl h
move-Honest (arrives {p = p} {t = t} r u) h = schedule-Honest _ t (arrives-Honest r p t u h)
move-Honest (starts {t = t} p' a c) h = new_run-Honest a c p' t

reach-Honest : {p : Props} {t : Theater} → Reach p t → Honest p t
unfolding opened
reach-Honest (open_page {p = p} a) = schedule-Honest p _ (calm (omega (arith, long p.scenario)))
reach-Honest (moves before last) = move-Honest last (reach-Honest before)

not_last :
    (p : Props) (t : Theater) → IsAt t.phase_index (get_phases p.scenario) → is_terminal p t ≡ false
unfolding is_terminal current_phase
not_last p t (holding x found h r last) = rw (found, is_terminal, current_phase) last
not_last p t (moving x found h last lt) = rw (found, is_terminal, current_phase) last

-- Whatever the controls, the timer, the results and the new runs, as long as a run's result is not
-- taken back: where the theater shows the last frame, the result of the run is known.
pub is_terminal-is_known :
    {p : Props} {t : Theater} → Reach p t → is_terminal p t ≡ true → is_known p.real_result ≡ true
unfolding get_terminal_index
is_terminal-is_known {p} {t} r e = elim (Bool-cases (is_known p.real_result)) [
  | inl k ↦ k
  | inr u ↦
      let lt : t.phase_index < get_terminal_index p.scenario =
        Honest-below p t u (reach-Honest r) in
      let script =
        is_script-IsAt t.phase_index (get_phases p.scenario) (scripts p.scenario) (omega arith) in
      absurd (cc (not_last p t script, e))
]
