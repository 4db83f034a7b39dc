-- ===== src/Oofevents/Bus/Shutdown.antt =====
-- Stop, and the publishers that run beside it.
use oof_rl.Prelude.{
  ℕ, ◌≡◌, refl, true, false, Option, none, some, List, [], ◌∷◌, ◌++◌, arith, lookup, lookup-insert,
  nat_comparable,
}
use mathlib.Core.List.{append_assoc}
use oof_rl.Oofevents.Bus.Fifo.{all_accepted, all_accepted-append, call_obs-quiet}
use oof_rl.Oofevents.Types.{Event}
use oof_rl.Oofevents.Bus.{
  Bus, Obs, crashed, Act, act_publish, act_send, act_start, act_stop, act_dispatch, act_subscribe,
  act_subscribe_all, act_cancel, step, run, check_stopped, try_send, start, stop, subscribe_with,
  subscribe_all, cancel, dispatch, send, send_found, take_event, dispatch_current, dispatch_calling,
  call_obs, Sub,
}

-- A publisher that passed its test of `stopped` before Stop, and sends after it, panics: whatever the
-- event, the goroutine and the running bus.
pub publish_races_stop :
    (b : Bus) (g : ℕ) (e : Event)
    → b.stopped ≡ false
    → (run b (act_publish g e ∷ act_stop ∷ act_send g ∷ [])).1 ≡ crashed e ∷ []
unfolding run step check_stopped stop try_send send_found send
publish_races_stop b g e h = ground (arith, lookup-insert g g e b.in_flight)

abbrev pub crash_event : Obs → List Event
crash_event (crashed e) = e ∷ []
crash_event _ = []

-- The events whose publisher panicked.
abbrev pub crashes : List Obs → List Event
crashes [] = []
crashes (o ∷ os) = crash_event o ++ crashes os

crashes-append : (os ps : List Obs) → crashes (os ++ ps) ≡ crashes os ++ crashes ps
crashes-append [] ps = refl
crashes-append (o ∷ os) ps = rw (crashes-append os ps, append_assoc)

call_obs-Calm : (s : Option Sub) (i : ℕ) (e : Event) → crashes (call_obs s i e) ≡ []
unfolding call_obs
call_obs-Calm none i e = refl
call_obs-Calm (some s) i e = ground arith

Stopped-dispatch :
    (current : Option (Event × List ℕ)) (b : Bus)
    → (crashes (dispatch_current current b).1 ≡ [])
      × (all_accepted (dispatch_current current b).1 ≡ [])
      × ((dispatch_current current b).0.stopped ≡ b.stopped)
      × ((dispatch_current current b).0.in_flight ≡ b.in_flight)
unfolding dispatch_current take_event
Stopped-dispatch none b = (ground arith, ground arith, ground arith, ground arith)
Stopped-dispatch (some (e, [])) b = (refl, refl, refl, refl)
Stopped-dispatch (some (e, i ∷ ids)) b = (refl, refl, refl, refl)

Stopped-calling :
    (calling : Option (ℕ × Event)) (b : Bus)
    → (crashes (dispatch_calling calling b).1 ≡ [])
      × (all_accepted (dispatch_calling calling b).1 ≡ [])
      × ((dispatch_calling calling b).0.stopped ≡ b.stopped)
      × ((dispatch_calling calling b).0.in_flight ≡ b.in_flight)
unfolding dispatch_calling
Stopped-calling none b = Stopped-dispatch b.current b
Stopped-calling (some (i, e)) b =
    (call_obs-Calm (lookup i b.heap) i e, (call_obs-quiet (lookup i b.heap) i e).0, refl, refl)

Stopped-step :
    (b : Bus) (a : Act)
    → b.stopped ≡ true
    → b.in_flight ≡ []
    → (crashes (step b a).1 ≡ [])
      × (all_accepted (step b a).1 ≡ [])
      × ((step b a).0.stopped ≡ true)
      × ((step b a).0.in_flight ≡ [])
unfolding step check_stopped try_send send_found start stop subscribe_with subscribe_all cancel
    dispatch lookup
Stopped-step b (act_publish g e) s f = (ground arith, ground arith, ground arith, ground arith)
Stopped-step b (act_send g) s f = (ground arith, ground arith, ground arith, ground arith)
Stopped-step b act_start s f = (refl, refl, s, f)
Stopped-step b act_stop s f = (ground arith, ground arith, ground arith, ground arith)
Stopped-step b act_dispatch s f = ground (arith, Stopped-calling b.calling b)
Stopped-step b (act_subscribe typ min fn) s f = (refl, refl, s, f)
Stopped-step b (act_subscribe_all fn) s f = (refl, refl, s, f)
Stopped-step b (act_cancel i) s f = (refl, refl, s, f)

-- A bus that was stopped while no publisher stood between its test and its send accepts no further
-- event and no publisher panics, whatever is scheduled afterwards.
pub stop_is_final :
    (b : Bus) (acts : List Act)
    → b.stopped ≡ true
    → b.in_flight ≡ []
    → (crashes (run b acts).1 ≡ []) × (all_accepted (run b acts).1 ≡ [])
unfolding run
stop_is_final b [] s f = (refl, refl)
stop_is_final b (a ∷ acts) s f =
    let (calm, quiet, s', f') = Stopped-step b a s f in
    let (calm', quiet') = stop_is_final (step b a).0 acts s' f' in
    (
      rw (crashes-append (step b a).1 (run (step b a).0 acts).1, calm) calm',
      rw (all_accepted-append (step b a).1 (run (step b a).0 acts).1, quiet) quiet',
    )
