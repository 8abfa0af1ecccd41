-- ===== src/Web/Theater/Liveness.antt =====
-- About apps/web/src/components/demo/use-demo-visualizer.ts: runs of the timer, and replays.
use inspect_element.Prelude.{
  ℕ, zero, suc, ◌≡◌, refl, ap, true, false, Bool, ◌&&◌, ◌⊎◌, inl, inr, ◌↔◌, ◌==◌, Bool-cases, arith,
  Option, some,
}
use inspect_element.Web.Phases.{
  DemoScenario, legit, blocked, overspend, get_phases, get_terminal_index, legit_phases,
  blocked_phases, overspend_phases,
}
use inspect_element.Web.Terminal.{DemoStatus, is_known, can_leave_hold}
use inspect_element.Web.Theater.{
  waiting, playing, paused, stepping, settled, TheaterMode, Theater, Props, same_mode, advance,
  schedule, rendered, tick, opened, replay, play, pause, result_arrives,
}

-- The timer fires `n` times.
unfoldable pub fired : ℕ → Props → Theater → Theater
fired zero p t = t
fired (suc n) p t = fired n p (tick p t)

-- A theater that opens playing, with the result of the run known, settles on its last frame after the
-- timer has fired once for each phase before it.
pub fired-settled :
    (s : DemoScenario) (r : Option DemoStatus)
    → is_known r ≡ true
    → fired
        (get_terminal_index s)
        (record { scenario = s; real_result = r })
        (opened true (record { scenario = s; real_result = r }))
      ≡ record { phase_index = get_terminal_index s; mode = settled; timer = false }
unfolding fired opened schedule tick rendered advance can_leave_hold get_terminal_index get_phases
    legit_phases blocked_phases overspend_phases
fired-settled legit r k = rw k refl
fired-settled blocked r k = rw k refl
fired-settled overspend r k = rw k refl

same_mode-playing : (m : TheaterMode) → (same_mode m playing ≡ true) ↔ (m ≡ playing)
same_mode-playing waiting = (λ h. cc, λ h. cc)
same_mode-playing playing = (λ h. refl, λ h. refl)
same_mode-playing paused = (λ h. cc, λ h. cc)
same_mode-playing stepping = (λ h. cc, λ h. cc)
same_mode-playing settled = (λ h. cc, λ h. cc)

-- The first phase of a script is neither a hold nor the end: the effect starts the timer in it.
starts :
    (s : DemoScenario) (o : Option DemoStatus) (timer : Bool)
    → schedule
        (record { scenario = s; real_result = o })
        (record { phase_index = 0; mode = playing; timer = timer })
      ≡ record { phase_index = 0; mode = playing; timer = true }
unfolding schedule get_phases legit_phases blocked_phases overspend_phases
starts legit o timer = refl
starts blocked o timer = refl
starts overspend o timer = refl

abbrev first_frame : Bool → Theater
first_frame timer = record { phase_index = 0; mode = playing; timer = timer }

-- Both outcomes of a replay.
replay-cases :
    (p : Props) (t : Theater)
    → ((t.phase_index ≡ 0) × (t.mode ≡ playing) × (replay p t ≡ first_frame false))
      ⊎ ((¬ ((t.phase_index ≡ 0) × (t.mode ≡ playing))) × (replay p t ≡ first_frame true))
unfolding replay rendered
replay-cases p t = elim (Bool-cases ((t.phase_index == 0) && same_mode t.mode playing)) [
  | inl same ↦
      let at : t.phase_index ≡ 0 = ground arith in
      let plays : t.mode ≡ playing = (same_mode-playing t.mode).0 (ground arith) in
      inl (at, plays, rw same refl)
  | inr other ↦ inr (
    λ (at, plays).
        let says : same_mode t.mode playing ≡ true = (same_mode-playing t.mode).1 plays in
        ground arith,
    rw other (starts p.scenario p.real_result false),
  )
]

arrived :
    (p : Props) (r : DemoStatus) (timer : Bool)
    → (result_arrives r p (first_frame timer)).timer ≡ true
unfolding result_arrives
arrived p r timer = ap (λ t. t.timer) (starts p.scenario (some r) timer)

resumed : (p : Props) (timer : Bool) → (play p (pause p (first_frame timer))).timer ≡ true
unfolding play pause rendered schedule
resumed p timer = ap (λ t. t.timer) (starts p.scenario p.real_result false)

-- After a replay the first phase is shown, playing. No timer is then pending exactly if the theater
-- was playing that phase already: nothing has changed in that case, and no effect starts a timer. The
-- arrival of the result starts one, and so does a pause that is resumed.
pub replay_stalls :
    (p : Props) (t : Theater) (r : DemoStatus)
    → ((replay p t).phase_index ≡ 0)
      × ((replay p t).mode ≡ playing)
      × (((replay p t).timer ≡ false) ↔ ((t.phase_index ≡ 0) × (t.mode ≡ playing)))
      × ((result_arrives r p (replay p t)).timer ≡ true)
      × ((play p (pause p (replay p t))).timer ≡ true)
replay_stalls p t r = elim (replay-cases p t) [
  | inl (at, plays, eq) ↦
      rw eq (refl, refl, (λ h. (at, plays), λ h. refl), arrived p r false, resumed p false)
  | inr (other, eq) ↦
      rw eq (refl, refl, (λ h. absurd cc, λ h. absurd (other h)), arrived p r true, resumed p true)
]
