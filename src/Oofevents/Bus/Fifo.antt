-- ===== src/Oofevents/Bus/Fifo.antt =====
-- What the channel of the bus promises: it is bounded, and it hands events on in order.
use oof_rl.Prelude.{
  ℕ, ◌≤◌, ◌≡◌, refl, ap, sym, ◌∙◌, Option, none, some, List, [], ◌∷◌, ◌++◌, arith, length,
  length-append, lookup, nat_comparable,
}
use mathlib.Core.List.{append-nil, append_assoc}
use oof_rl.Oofevents.Types.{Event}
use oof_rl.Oofevents.Bus.{
  Bus, Obs, accepted, took, Act, act_publish, act_send, act_start, act_stop, act_dispatch,
  act_subscribe, act_subscribe_all, act_cancel, check_stopped, try_send, start, stop,
  subscribe_with, subscribe_all, cancel, dispatch, step, run, send, send_found, take_event,
  dispatch_current, dispatch_calling, call_obs, Sub, dispatch_buffer,
}

abbrev pub accepted_event : Obs → List Event
accepted_event (accepted e) = e ∷ []
accepted_event _ = []

abbrev pub taken_event : Obs → List Event
taken_event (took e) = e ∷ []
taken_event _ = []

-- The events that the schedule put into the channel, and those that the dispatcher took out.
abbrev pub all_accepted : List Obs → List Event
all_accepted [] = []
all_accepted (o ∷ os) = accepted_event o ++ all_accepted os

abbrev pub all_taken : List Obs → List Event
all_taken [] = []
all_taken (o ∷ os) = taken_event o ++ all_taken os

pub all_accepted-append :
    (os ps : List Obs) → all_accepted (os ++ ps) ≡ all_accepted os ++ all_accepted ps
all_accepted-append [] ps = refl
all_accepted-append (o ∷ os) ps = rw (all_accepted-append os ps, append_assoc)

all_taken-append : (os ps : List Obs) → all_taken (os ++ ps) ≡ all_taken os ++ all_taken ps
all_taken-append [] ps = refl
all_taken-append (o ∷ os) ps = rw (all_taken-append os ps, append_assoc)

-- A handler's call neither fills nor empties the channel.
pub call_obs-quiet :
    (s : Option Sub) (i : ℕ) (e : Event)
    → (all_accepted (call_obs s i e) ≡ []) × (all_taken (call_obs s i e) ≡ [])
unfolding call_obs
call_obs-quiet none i e = (refl, refl)
call_obs-quiet (some s) i e = ground arith

abbrev InOrder : List Event → Bus × List Obs → Type 0
InOrder queue (b, os) = queue ++ all_accepted os ≡ all_taken os ++ b.queue

InOrder-send : (e : Event) (b : Bus) → InOrder b.queue (send e b)
unfolding send
InOrder-send e b = ground (arith, append-nil b.queue)

InOrder-send_found : (o : Option Event) (g : ℕ) (b : Bus) → InOrder b.queue (send_found o g b)
unfolding send_found
InOrder-send_found none g b = append-nil b.queue
InOrder-send_found (some e) g b = InOrder-send e _

InOrder-take_event :
    (queue : List Event) (b : Bus) → b.queue ≡ queue → InOrder queue (take_event queue b)
unfolding take_event
InOrder-take_event [] b h = sym h
InOrder-take_event (e ∷ rest) b h = ap (λ (q : List Event). e ∷ q) (append-nil rest)

InOrder-dispatch_current :
    (current : Option (Event × List ℕ)) (b : Bus) → InOrder b.queue (dispatch_current current b)
unfolding dispatch_current
InOrder-dispatch_current none b = InOrder-take_event b.queue b refl
InOrder-dispatch_current (some (e, [])) b = append-nil b.queue
InOrder-dispatch_current (some (e, i ∷ ids)) b = append-nil b.queue

InOrder-dispatch_calling :
    (calling : Option (ℕ × Event)) (b : Bus) → InOrder b.queue (dispatch_calling calling b)
unfolding dispatch_calling
InOrder-dispatch_calling none b = InOrder-dispatch_current b.current b
InOrder-dispatch_calling (some (i, e)) b =
    let (quiet_in, quiet_out) = call_obs-quiet (lookup i b.heap) i e in
    rw (quiet_in, quiet_out) (append-nil b.queue)

InOrder-step : (b : Bus) (a : Act) → InOrder b.queue (step b a)
unfolding step check_stopped try_send start stop subscribe_with subscribe_all cancel dispatch
InOrder-step b (act_publish g e) = ground (arith, append-nil b.queue)
InOrder-step b (act_send g) = InOrder-send_found (lookup g b.in_flight) g b
InOrder-step b act_start = append-nil b.queue
InOrder-step b act_stop = ground (arith, append-nil b.queue)
InOrder-step b act_dispatch =
    ground (arith, append-nil b.queue, InOrder-dispatch_calling b.calling b)
InOrder-step b (act_subscribe typ min fn) = append-nil b.queue
InOrder-step b (act_subscribe_all fn) = append-nil b.queue
InOrder-step b (act_cancel i) = append-nil b.queue

-- For every schedule, what was in the channel followed by what was accepted is what the dispatcher
-- took followed by what is still in the channel: no event is lost, doubled or reordered between
-- acceptance and dispatch.
pub run_in_order :
    (b : Bus) (acts : List Act)
    → let (b', seen) = run b acts in b.queue ++ all_accepted seen ≡ all_taken seen ++ b'.queue
unfolding run
run_in_order b [] = append-nil b.queue
run_in_order b (a ∷ acts) =
    let (b', seen) = step b a in
    let (b'', later) = run b' acts in
    rw (all_accepted-append seen later, all_taken-append seen later)
      (sym (append_assoc b.queue (all_accepted seen) (all_accepted later))
        ∙ ap (λ (q : List Event). q ++ all_accepted later) (InOrder-step b a)
        ∙ append_assoc (all_taken seen) b'.queue (all_accepted later)
        ∙ ap (λ (q : List Event). all_taken seen ++ q) (run_in_order b' acts)
        ∙ sym (append_assoc (all_taken seen) (all_taken later) b''.queue))

abbrev Fits : Bus → Type 0
Fits b = length b.queue ≤ dispatch_buffer

Fits-send_found : (o : Option Event) (g : ℕ) (b : Bus) → Fits b → Fits (send_found o g b).0
unfolding send_found send
Fits-send_found none g b h = h
Fits-send_found (some e) g b h = ground (arith, length-append b.queue (e ∷ []))

Fits-take_event :
    (queue : List Event) (b : Bus) → b.queue ≡ queue → Fits b → Fits (take_event queue b).0
unfolding take_event
Fits-take_event [] b e h = h
Fits-take_event (x ∷ rest) b e h = omega (arith, ap length (sym e))

Fits-dispatch_current :
    (current : Option (Event × List ℕ)) (b : Bus) → Fits b → Fits (dispatch_current current b).0
unfolding dispatch_current
Fits-dispatch_current none b h = Fits-take_event b.queue b refl h
Fits-dispatch_current (some (e, [])) b h = h
Fits-dispatch_current (some (e, i ∷ ids)) b h = h

Fits-dispatch_calling :
    (calling : Option (ℕ × Event)) (b : Bus) → Fits b → Fits (dispatch_calling calling b).0
unfolding dispatch_calling
Fits-dispatch_calling none b h = Fits-dispatch_current b.current b h
Fits-dispatch_calling (some (i, e)) b h = h

Fits-step : (b : Bus) (a : Act) → Fits b → Fits (step b a).0
unfolding step check_stopped try_send start stop subscribe_with subscribe_all cancel dispatch
Fits-step b (act_publish g e) h = ground (arith, h)
Fits-step b (act_send g) h = Fits-send_found (lookup g b.in_flight) g b h
Fits-step b act_start h = h
Fits-step b act_stop h = ground (arith, h)
Fits-step b act_dispatch h = ground (arith, Fits-dispatch_calling b.calling b h)
Fits-step b (act_subscribe typ min fn) h = h
Fits-step b (act_subscribe_all fn) h = h
Fits-step b (act_cancel i) h = h

-- No schedule makes the channel of a fresh bus hold more than its 256 events.
run_fits : (b : Bus) (acts : List Act) → length b.queue ≤ 256 → length (run b acts).0.queue ≤ 256
unfolding run
run_fits b [] h = h
run_fits b (a ∷ acts) h = run_fits (step b a).0 acts (Fits-step b a h)
