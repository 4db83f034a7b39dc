-- ===== src/Oofevents/Bus/Delivery.antt =====
-- Which handlers the dispatcher of the bus calls.
use oof_rl.Prelude.{
  ℕ, zero, suc, ◌+◌, ◌≤◌, ◌<◌, ◌≡◌, refl, ap, length-append, Bool, true, false, Option, none, some,
  List, [], ◌∷◌, ◌++◌, arith, length, nat_beq, nat_beq_iff, lookup, lookup-insert, nat_comparable,
  if◌then◌else◌, Bool-cases, inl, inr,
}
use mathlib.Core.List.{append_assoc}
use oof_rl.Oofevents.Types.{Event, event_type}
use oof_rl.Oofevents.Bus.{
  Bus, Obs, took, called, filtered, Act, act_publish, act_send, act_start, act_stop, act_dispatch,
  act_subscribe, act_subscribe_all, act_cancel, step, run, check_stopped, try_send, start, stop,
  subscribe_with, subscribe_all, cancel, cancel_sub, dispatch, send, send_found, take_event,
  dispatch_current, dispatch_calling, check_cancelled, passes_min, call_obs, Sub, ids_of,
}

abbrev pub call_event : ℕ → Obs → List Event
call_event i (called j e) = if nat_beq j i then e ∷ [] else []
call_event i _ = []

-- The events with which the handler of sub `i` is called.
abbrev pub calls_to : ℕ → List Obs → List Event
calls_to i [] = []
calls_to i (o ∷ os) = call_event i o ++ calls_to i os

calls_to-append :
    (i : ℕ) (os ps : List Obs) → calls_to i (os ++ ps) ≡ calls_to i os ++ calls_to i ps
calls_to-append i [] ps = refl
calls_to-append i (o ∷ os) ps = rw (calls_to-append i os ps, append_assoc)

abbrev pub is_cancelled : Option Sub → Bool
is_cancelled none = false
is_cancelled (some s) = s.cancelled

abbrev Cancelled : ℕ → Bus → Type 0
Cancelled i b = (i < b.next_id) × (is_cancelled (lookup i b.heap) ≡ true)

Cancelled-cancel :
    (i j : ℕ) (o : Option Sub) (heap : List (ℕ × Sub))
    → lookup j heap ≡ o
    → is_cancelled (lookup i heap) ≡ true
    → is_cancelled (lookup i (cancel_sub o j heap)) ≡ true
Cancelled-cancel i j none heap e h = h
Cancelled-cancel i j (some s) heap e h =
    ground (arith, lookup-insert j i (record s { cancelled = true }) heap)

Cancelled-step : (i : ℕ) (b : Bus) (a : Act) → Cancelled i b → Cancelled i (step b a).0
unfolding step check_stopped try_send start stop subscribe_with subscribe_all cancel dispatch
    send_found send dispatch_current take_event
Cancelled-step i b (act_publish g e) h = ground arith
Cancelled-step i b (act_send g) h = ground arith
Cancelled-step i b act_start h = h
Cancelled-step i b act_stop h = ground arith
Cancelled-step i b act_dispatch h = ground arith
Cancelled-step i b (act_subscribe typ min fn) h = ground (
  arith,
  lookup-insert b.next_id i (record { fn = fn; event_type = typ; min = min; cancelled = false })
      b.heap,
)
Cancelled-step i b (act_subscribe_all fn) h = ground (
  arith,
  lookup-insert b.next_id i (record { fn = fn; event_type = []; min = none; cancelled = false })
      b.heap,
)
Cancelled-step i b (act_cancel j) h = (h.0, Cancelled-cancel i j (lookup j b.heap) b.heap refl h.1)

abbrev pub is_calling : ℕ → Option (ℕ × Event) → Bool
is_calling i none = false
is_calling i (some (j, e)) = nat_beq j i

-- The calls of the sub that have passed the test of `cancelled`: one at most.
abbrev pub pending_calls : ℕ → Bus → ℕ
pending_calls i b = if is_calling i b.calling then 1 else 0

one_call :
    (o : Option Sub) (i j : ℕ) (e : Event)
    → length (calls_to i (call_obs o j e)) ≤ (if nat_beq j i then 1 else 0)
unfolding call_obs
one_call none i j e = ground arith
one_call (some s) i j e = ground arith

cancelled_not_called :
    (o : Option Sub) (i j : ℕ) (e : Event)
    → (nat_beq j i ≡ true → is_cancelled o ≡ true)
    → is_calling i (check_cancelled o j e) ≡ false
unfolding check_cancelled
cancelled_not_called none i j e h = refl
cancelled_not_called (some s) i j e h = ground (arith, h)

test_next :
    (i j : ℕ) (b : Bus) (e : Event)
    → is_cancelled (lookup i b.heap) ≡ true
    → is_calling i (check_cancelled (lookup j b.heap) j e) ≡ false
test_next i j b e h =
    cancelled_not_called (lookup j b.heap) i j e (λ same. rw ((nat_beq_iff j i).0 same) h)

-- What the steps of the dispatcher do to the pending calls of a cancelled sub.
abbrev Uses : ℕ → Bus → Bus × List Obs → Type 0
Uses i b (b', os) = pending_calls i b' + length (calls_to i os) ≤ pending_calls i b

Uses-dispatch_current :
    (i : ℕ) (current : Option (Event × List ℕ)) (b : Bus)
    → is_cancelled (lookup i b.heap) ≡ true
    → is_calling i b.calling ≡ false
    → Uses i b (dispatch_current current b)
unfolding dispatch_current take_event
Uses-dispatch_current i none b h c = ground arith
Uses-dispatch_current i (some (e, [])) b h c = ground arith
Uses-dispatch_current i (some (e, j ∷ ids)) b h c = ground (arith, test_next i j b e h, c)

Uses-dispatch_calling :
    (i : ℕ) (calling : Option (ℕ × Event)) (b : Bus)
    → b.calling ≡ calling
    → is_cancelled (lookup i b.heap) ≡ true
    → Uses i b (dispatch_calling calling b)
unfolding dispatch_calling
Uses-dispatch_calling i none b c h = Uses-dispatch_current i b.current b h (ap (is_calling i) c)
Uses-dispatch_calling i (some (j, e)) b c h = rw c (omega (arith, one_call (lookup j b.heap) i j e))

Uses-step : (i : ℕ) (b : Bus) (a : Act) → Cancelled i b → Uses i b (step b a)
unfolding step check_stopped try_send send_found send start stop subscribe_with subscribe_all cancel
    dispatch
Uses-step i b (act_publish g e) h = ground arith
Uses-step i b (act_send g) h = ground arith
Uses-step i b act_start h = ground arith
Uses-step i b act_stop h = ground arith
Uses-step i b act_dispatch h = ground (arith, Uses-dispatch_calling i b.calling b refl h.1)
Uses-step i b (act_subscribe typ min fn) h = ground arith
Uses-step i b (act_subscribe_all fn) h = ground arith
Uses-step i b (act_cancel j) h = ground arith

-- Once a subscription is cancelled, every schedule calls its handler at most once more, and not at all
-- unless the dispatcher had just passed its test of the cancelled flag, even for events that were in
-- the channel, or whose subs the dispatcher had already copied, when Cancel was called.
pub cancelled_stays_quiet :
    (i : ℕ) (b : Bus) (acts : List Act)
    → i < b.next_id
    → is_cancelled (lookup i b.heap) ≡ true
    → length (calls_to i (run b acts).1) ≤ pending_calls i b
unfolding run
cancelled_stays_quiet i b [] known h = ground arith
cancelled_stays_quiet i b (a ∷ acts) known h =
    let (b', seen) = step b a in
    let (known', h') = Cancelled-step i b a (known, h) in
    rw (calls_to-append i seen (run b' acts).1) (
      omega (
        arith,
        length-append (calls_to i seen) (calls_to i (run b' acts).1),
        Uses-step i b a (known, h),
        cancelled_stays_quiet i b' acts known' h',
      ))

-- What the dispatcher does for one event when nothing else runs.
abbrev shown : Option Sub → ℕ → Event → List Obs
shown none i e = []
shown (some s) i e =
    if s.cancelled then [] else if passes_min s.min e then called i e ∷ [] else filtered i e ∷ []

abbrev pub calls_for : List (ℕ × Sub) → Event → List ℕ → List Obs
calls_for heap e [] = []
calls_for heap e (i ∷ ids) = shown (lookup i heap) i e ++ calls_for heap e ids

-- The steps for the subs of an event: the test of each, the call of those that pass, and the end.
abbrev and_steps_of : Option Sub → ℕ → ℕ
and_steps_of none n = suc n
and_steps_of (some s) n = if s.cancelled then suc n else suc (suc n)

abbrev pub steps_for : List (ℕ × Sub) → List ℕ → ℕ
steps_for heap [] = 1
steps_for heap (i ∷ ids) = and_steps_of (lookup i heap) (steps_for heap ids)

abbrev pub dispatches : ℕ → List Act
dispatches zero = []
dispatches (suc n) = act_dispatch ∷ dispatches n

next_test :
    (b : Bus) (e : Event) (i : ℕ) (ids : List ℕ)
    → b.started ≡ true
    → b.calling ≡ none
    → b.current ≡ some (e, i ∷ ids)
    → step b act_dispatch
      ≡ (record b { current = some (e, ids); calling = check_cancelled (lookup i b.heap) i e }, [])
unfolding step dispatch dispatch_calling dispatch_current
next_test b e i ids s n c = rw (s, n, c) refl

next_call :
    (b : Bus) (e : Event) (i : ℕ)
    → b.started ≡ true
    → b.calling ≡ some (i, e)
    → step b act_dispatch ≡ (record b { calling = none }, call_obs (lookup i b.heap) i e)
unfolding step dispatch dispatch_calling
next_call b e i s c = rw (s, c) refl

last_call :
    (b : Bus) (e : Event)
    → b.started ≡ true
    → b.calling ≡ none
    → b.current ≡ some (e, [])
    → step b act_dispatch ≡ (record b { current = none }, [])
unfolding step dispatch dispatch_calling dispatch_current
last_call b e s n c = rw (s, n, c) refl

next_event :
    (b : Bus) (e : Event) (rest : List Event)
    → b.started ≡ true
    → b.calling ≡ none
    → b.current ≡ none
    → b.queue ≡ e ∷ rest
    → step b act_dispatch ≡ (
      record b { queue = rest; current = some (e, ids_of (event_type e) b.subs ++ b.all_subs) },
      took e ∷ [],
    )
unfolding step dispatch dispatch_calling dispatch_current take_event
next_event b e rest s n c q = rw (s, n, c, q) refl

run-cons :
    (b : Bus) (a : Act) (acts : List Act)
    → run b (a ∷ acts) ≡ ((run (step b a).0 acts).0, (step b a).1 ++ (run (step b a).0 acts).1)
unfolding run
run-cons b a acts = refl

run-nil : (b : Bus) → run b [] ≡ (b, [])
unfolding run
run-nil b = refl

-- The dispatcher is done with the event.
abbrev at_rest : Bus → Bus
at_rest b = record b { current = none; calling = none }

-- It serves the next sub, and from there on `later` happens.
serve_next :
    (b : Bus) (e : Event) (i : ℕ) (ids : List ℕ) (n : ℕ) (o : Option Sub) (later : Bus × List Obs)
    → lookup i b.heap ≡ o
    → b.started ≡ true
    → b.calling ≡ none
    → b.current ≡ some (e, i ∷ ids)
    → run (record b { current = some (e, ids); calling = none }) (dispatches n) ≡ later
    → run b (dispatches (and_steps_of o n)) ≡ (later.0, shown o i e ++ later.1)
unfolding check_cancelled call_obs
serve_next b e i ids n none later found s c cur h =
    rw (run-cons b act_dispatch (dispatches n), next_test b e i ids s c cur, found, h) refl
serve_next b e i ids n (some sub) later found s c cur h = elim (Bool-cases sub.cancelled) [
  | inl gone ↦
      rw (gone, run-cons b act_dispatch (dispatches n), next_test b e i ids s c cur, found, gone, h)
        refl
  | inr live ↦
      let tested = record b { current = some (e, ids); calling = some (i, e) } in
      rw
        (
          live,
          run-cons b act_dispatch (act_dispatch ∷ dispatches n),
          next_test b e i ids s c cur,
          found,
          live,
          run-cons tested act_dispatch (dispatches n),
          next_call tested e i s refl,
          found,
          h,
        )
        refl
]

finish_round :
    (b : Bus) (e : Event) (ids : List ℕ)
    → b.started ≡ true
    → b.calling ≡ none
    → b.current ≡ some (e, ids)
    → run b (dispatches (steps_for b.heap ids)) ≡ (at_rest b, calls_for b.heap e ids)
finish_round b e [] s n c =
    rw (run-cons b act_dispatch [], last_call b e s n c, run-nil (record b { current = none }))
      (ap (λ calling. (record b { current = none; calling = calling }, [])) n)
finish_round b e (i ∷ ids) s n c =
    serve_next b e i ids (steps_for b.heap ids) (lookup i b.heap)
      (at_rest b, calls_for b.heap e ids) refl s n c
      (finish_round (record b { current = some (e, ids); calling = none }) e ids s refl refl)

-- A started dispatcher that is between two events and left alone takes the oldest event of the channel
-- and, in one step for it, one for the test of each of its subs, one for each call and one at the end,
-- calls the subs of the event's type in the order of their registration, then those of SubscribeAll,
-- each once, skipping the cancelled and the filtered, and is then ready for the next event with
-- nothing else changed.
pub round_calls_each_once :
    (b : Bus) (e : Event) (rest : List Event)
    → b.started ≡ true
    → b.calling ≡ none
    → b.current ≡ none
    → b.queue ≡ e ∷ rest
    → let ids = ids_of (event_type e) b.subs ++ b.all_subs in
      run b (dispatches (suc (steps_for b.heap ids)))
      ≡ (record b { queue = rest; current = none; calling = none }, took e ∷ calls_for b.heap e ids)
round_calls_each_once b e rest s n c q =
    let ids = ids_of (event_type e) b.subs ++ b.all_subs in
    rw
      (
        run-cons b act_dispatch (dispatches (steps_for b.heap ids)),
        next_event b e rest s n c q,
        finish_round (record b { queue = rest; current = some (e, ids) }) e ids s n refl,
      )
      refl
