-- ===== src/Tests/Theater.antt =====
-- The theater of apps/web/src/components/demo in three runs.
use inspect_element.Prelude.{◌↔◌, ◌≡◌, refl, true, false, none, some, inl}
use inspect_element.Web.Phases.{
  legit, blocked, get_phases, get_terminal_index, legit_phases, blocked_phases,
}
use inspect_element.Web.Terminal.{
  DemoStatus, success, is_known, can_leave_hold, counterparty_not_allowed,
}
use inspect_element.Web.Theater.{
  Theater, Props, playing, settled, is_terminal, current_phase, opened, result_arrives, schedule,
  tick, rendered, advance, replay, new_run, play, pause,
}
use inspect_element.Web.Theater.Laws.{Reach, open_page, moves, arrives, ticks, is_terminal-is_known}
use inspect_element.Web.Theater.Liveness.{fired, fired-settled, replay_stalls}

abbrev denied : DemoStatus
denied = record {
  scenario = blocked;
  status = success;
  tx_hash = none;
  reason_code = some counterparty_not_allowed;
  receipt_id = none;
  error = none;
}

abbrev awaiting : Props
awaiting = record { scenario = blocked; real_result = none }

abbrev informed : Props
informed = record { scenario = blocked; real_result = some denied }

abbrev answered : Theater
answered = result_arrives denied awaiting (opened true awaiting)

to_the_end : Reach informed (tick informed (tick informed (tick informed (tick informed answered))))
unfolding is_known
to_the_end =
    moves
      (moves (moves (moves (moves (open_page true) (arrives denied (inl refl))) ticks) ticks) ticks)
      ticks

is_terminal-is_known_example : is_known (some denied) ≡ true
unfolding opened result_arrives schedule tick rendered advance is_terminal current_phase
    can_leave_hold get_terminal_index get_phases blocked_phases
is_terminal-is_known_example = is_terminal-is_known to_the_end refl

fired-settled_example :
    fired 6
      (record { scenario = legit; real_result = some denied })
      (opened true (record { scenario = legit; real_result = some denied }))
    ≡ record { phase_index = 6; mode = settled; timer = false }
unfolding get_terminal_index get_phases legit_phases is_known
fired-settled_example = fired-settled legit (some denied) refl

abbrev stalled : Theater
stalled = record { phase_index = 0; mode = playing; timer = false }

abbrev first_phase : Theater
first_phase = record { phase_index = 0; mode = playing; timer = true }

replay_stalls_example :
    (stalled.phase_index ≡ 0)
    × (stalled.mode ≡ playing)
    × ((stalled.timer ≡ false) ↔ ((first_phase.phase_index ≡ 0) × (first_phase.mode ≡ playing)))
    × ((result_arrives denied awaiting stalled).timer ≡ true)
    × ((play awaiting (pause awaiting stalled)).timer ≡ true)
unfolding replay rendered
replay_stalls_example = replay_stalls awaiting first_phase denied

-- No timer: the theater stays as it is, however often one would fire.
stays : fired 9 awaiting stalled ≡ stalled
unfolding fired tick
stays = refl

-- A `blocked` run that starts while a `legit` one plays its fifth phase: the effect settles on the
-- fifth phase of the new script, which is its last, and the theater rests on the first.
new_run_rests :
    new_run true true awaiting (record { phase_index = 4; mode = playing; timer = true })
    ≡ record { phase_index = 0; mode = settled; timer = false }
unfolding new_run rendered schedule advance get_terminal_index get_phases blocked_phases
new_run_rests = refl
