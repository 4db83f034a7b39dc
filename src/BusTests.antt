-- ===== src/BusTests.antt =====
-- The theorems about the bus at concrete inputs, and runs of it.
use oof_rl.Prelude.{
  pos, ◌≤◌, ◌≡◌, length, refl, codes, text_beq, none, some, List, [], ◌∷◌, ◌++◌, arith, lookup,
  insert, remove,
}
use oof_rl.Oofevents.Types.{Event}
use oof_rl.Oofevents.New.{new_match_started, new_match_ended}
use oof_rl.Oofevents.Types.{authoritative, type_match_started, base}
use oof_rl.Oofevents.Bus.{
  Bus, new, Act, act_publish, act_send, act_start, act_stop, act_subscribe, act_subscribe_all,
  act_cancel, Obs, took, called, crashed, run, step, ids_of, dispatch, try_send, send,
  check_stopped, subscribe_all, subscribe_with, start, stop, cancel,
}
use oof_rl.Oofevents.Bus.Fifo.{run_in_order, all_accepted, all_taken}
use oof_rl.Oofevents.Bus.Delivery.{
  cancelled_stays_quiet, round_calls_each_once, calls_to, calls_for, dispatches, pending_calls,
}
use oof_rl.Oofevents.Bus.Shutdown.{publish_races_stop, stop_is_final, crashes}

-- A run from the new bus; a test that unfolds it runs the whole bus.
simulate : List Act → Bus × List Obs
unfolding run step new base new_match_started new_match_ended text_beq insert lookup remove dispatch
    try_send send check_stopped subscribe_all subscribe_with start stop cancel ids_of
simulate acts = run new acts

abbrev kickoff : Event
kickoff = new_match_started 7 (codes "m1")

abbrev final_whistle : Event
final_whistle = new_match_ended 9 (codes "m1") (pos 1)

-- Two subscriptions to match.started, one with a minimal certainty, and one to everything.
abbrev setup : List Act
setup =
    act_start
    ∷ act_subscribe type_match_started none 10
    ∷ act_subscribe type_match_started (some authoritative) 11
    ∷ act_subscribe_all 12
    ∷ []

abbrev published : List Act
published = act_publish 0 kickoff ∷ act_send 0 ∷ act_publish 1 final_whistle ∷ act_send 1 ∷ []

abbrev busy : Bus
busy = (run new (setup ++ published)).0

-- The events reach the handlers in order.
calls_in_order :
    (run busy (dispatches 12)).1
    ≡ took kickoff
      ∷ called 0 kickoff
      ∷ called 1 kickoff
      ∷ called 2 kickoff
      ∷ took final_whistle
      ∷ called 2 final_whistle
      ∷ []
unfolding simulate
calls_in_order = refl

run_in_order_example :
    busy.queue ++ all_accepted (run busy (dispatches 8)).1
    ≡ all_taken (run busy (dispatches 8)).1 ++ (run busy (dispatches 8)).0.queue
run_in_order_example = run_in_order busy (dispatches 8)

-- The dispatcher has tested sub 0 for the kickoff when it is cancelled.
abbrev cancelled_late : Bus
cancelled_late = (step (run busy (dispatches 2)).0 (act_cancel 0)).0

cancelled_stays_quiet_example :
    length (calls_to 0 (run cancelled_late (dispatches 10)).1) ≤ pending_calls 0 cancelled_late
unfolding simulate
cancelled_stays_quiet_example =
    cancelled_stays_quiet 0 cancelled_late (dispatches 10) (omega arith) refl

-- The one call happens, after Cancel has returned.
called_late : calls_to 0 (run cancelled_late (dispatches 10)).1 ≡ kickoff ∷ []
unfolding simulate
called_late = refl

round_calls_each_once_example : run busy (dispatches 8) ≡ (
  record busy { queue = final_whistle ∷ []; current = none; calling = none },
  took kickoff ∷ calls_for busy.heap kickoff (0 ∷ 1 ∷ 2 ∷ []),
)
unfolding simulate
round_calls_each_once_example =
    round_calls_each_once busy kickoff (final_whistle ∷ []) refl refl refl refl

stop_is_final_example :
    (crashes (run (step busy act_stop).0 published).1 ≡ [])
    × (all_accepted (run (step busy act_stop).0 published).1 ≡ [])
unfolding simulate
stop_is_final_example = stop_is_final (step busy act_stop).0 published refl refl

publish_races_stop_example :
    (run busy (act_publish 4 kickoff ∷ act_stop ∷ act_send 4 ∷ [])).1 ≡ crashed kickoff ∷ []
unfolding simulate
publish_races_stop_example = publish_races_stop busy 4 kickoff refl
