-- ===== src/Web/Theater.antt =====
-- apps/web/src/components/demo/use-demo-visualizer.ts: the phase machine of the theater. An effect
-- runs after a render in which a value that it depends on has changed; the updates that it queues
-- make the next render.
pub mod Laws
pub mod Script
pub mod Liveness
use inspect_element.Prelude.{
  ℕ, suc, ◌+◌, ◌≡◌, refl, Bool, true, false, ◌&&◌, ◌||◌, not, Option, none, some, List, [], ◌∷◌,
  get_elem?, min, ◌==◌, if◌then◌else◌,
}
use inspect_element.Web.Phases.{
  DemoScenario, legit, blocked, overspend, Phase, PhaseKind, hold, terminal, get_phases,
  get_terminal_index,
}
use inspect_element.Web.Terminal.{DemoStatus, can_leave_hold}

pub data TheaterMode : Type 0 where
  waiting playing paused stepping settled : TheaterMode

-- The two state variables, and whether `timerRef` holds a pending timer.
pub record Theater : Type 0 where
  pub phase_index : ℕ
  pub mode : TheaterMode
  pub timer : Bool

-- What the hook is called with. `run_key` only marks a new run, which `reset` below is for.
pub record Props : Type 0 where
  pub scenario : DemoScenario
  pub real_result : Option DemoStatus

abbrev pub is_terminal_kind : PhaseKind → Bool
is_terminal_kind terminal = true
is_terminal_kind k = false

abbrev pub is_hold_kind : PhaseKind → Bool
is_hold_kind hold = true
is_hold_kind k = false

-- `setPhaseIndex((i) => Math.min(i + 1, terminalIndex))`
unfoldable pub advance : Props → ℕ → ℕ
advance p i = min (i + 1) (get_terminal_index p.scenario)

-- What the scheduling effect does in a phase, in one of the two modes that it acts in.
abbrev pub act : Props → Phase → Bool → Theater → Theater
act p current is_stepping t =
    if is_terminal_kind current.kind
    then record t { mode = settled }
    else if is_hold_kind current.kind && not (can_leave_hold current p.real_result)
    then t
    else if is_stepping
    then record t { phase_index = advance p t.phase_index; mode = paused }
    else record t { timer = true }

abbrev pub act_at : Props → Bool → Theater → Option Phase → Theater
act_at p is_stepping t none = t
act_at p is_stepping t (some current) = act p current is_stepping t

-- It acts while playing and while stepping.
abbrev pub schedule_in : Props → Theater → TheaterMode → Theater
schedule_in p t playing = act_at p false t (get_elem? (get_phases p.scenario) t.phase_index)
schedule_in p t stepping = act_at p true t (get_elem? (get_phases p.scenario) t.phase_index)
schedule_in p t m = t

-- The scheduling effect, its clean-up first. The render that its updates make runs it once more, to
-- no effect: the mode is then `settled` or `paused`.
unfoldable pub schedule : Props → Theater → Theater
schedule p t = schedule_in p (record t { timer = false }) t.mode

abbrev pub same_mode : TheaterMode → TheaterMode → Bool
same_mode waiting waiting = true
same_mode playing playing = true
same_mode paused paused = true
same_mode stepping stepping = true
same_mode settled settled = true
same_mode _ _ = false

-- The render after an update: the effect runs only if the phase or the mode has changed.
unfoldable pub rendered : Props → Theater → Theater → Theater
rendered p old new =
    if (old.phase_index == new.phase_index) && same_mode old.mode new.mode
    then new
    else schedule p new

abbrev unless_settled : TheaterMode → TheaterMode → TheaterMode
unless_settled settled m = settled
unless_settled _ m = m

-- `play` and `resume`
unfoldable pub play : Props → Theater → Theater
play p t = rendered p t (record t { mode = unless_settled t.mode playing })

unfoldable pub pause : Props → Theater → Theater
pause p t = rendered p t (record t { mode = unless_settled t.mode paused; timer = false })

unfoldable pub step : Props → Theater → Theater
step p t = rendered p t (record t { mode = stepping; timer = false })

unfoldable pub replay : Props → Theater → Theater
replay p t = rendered p t (record { phase_index = 0; mode = playing; timer = false })

-- The pending timer fires.
unfoldable pub tick : Props → Theater → Theater
tick p t =
    if t.timer
    then rendered p t (record t { phase_index = advance p t.phase_index; timer = false })
    else t

-- The result of the run arrives: the effect depends on it.
unfoldable pub result_arrives : DemoStatus → Props → Theater → Theater
result_arrives r p t = schedule (record p { real_result = some r }) t

abbrev first_mode : Bool → TheaterMode
first_mode auto_play = if auto_play then playing else waiting

abbrev same_scenario : DemoScenario → DemoScenario → Bool
same_scenario legit legit = true
same_scenario blocked blocked = true
same_scenario overspend overspend = true
same_scenario _ _ = false

-- A new run with its props. The reset effect stops the timer and queues phase 0 and the first mode;
-- the scheduling effect of the same render still sees the old phase and mode. That render itself, in
-- which the old phase would be shown with the new props until the queued updates are made, is no state
-- of its own here; the page mounts the hook anew for each run (`key={runKey}`), through `opened`.
unfoldable pub new_run : Bool → Bool → Props → Theater → Theater
new_run auto_play props_changed p t =
    let stale : Theater = if props_changed then schedule p t else record t { timer = false } in
    let advanced = not (stale.phase_index == t.phase_index) in
    let settles = not (same_mode stale.mode t.mode) in
    let new : Theater = record {
      phase_index = if advanced then advance p 0 else 0;
      mode = if settles then stale.mode else first_mode auto_play;
      timer = stale.timer;
    } in
    rendered p t new

-- The hook's first render.
unfoldable pub opened : Bool → Props → Theater
opened auto_play p =
    schedule p (record { phase_index = 0; mode = first_mode auto_play; timer = false })

abbrev phase_or_first : List Phase → Option Phase → Option Phase
phase_or_first phases (some x) = some x
phase_or_first phases none = get_elem? phases 0

-- `phases[phaseIndex] ?? phases[0]`
unfoldable pub current_phase : Props → Theater → Option Phase
current_phase p t =
    phase_or_first (get_phases p.scenario) (get_elem? (get_phases p.scenario) t.phase_index)

abbrev holds_at : Option DemoStatus → Option Phase → Bool
holds_at result none = false
holds_at result (some x) = is_hold_kind x.kind && not (can_leave_hold x result)

abbrev ends_at : Option Phase → Bool
ends_at none = false
ends_at (some x) = is_terminal_kind x.kind

unfoldable pub is_terminal : Props → Theater → Bool
is_terminal p t = ends_at (current_phase p t)

unfoldable pub is_holding : Props → Theater → Bool
is_holding p t = holds_at p.real_result (current_phase p t)
