-- ===== src/Oofevents/Bus.antt =====
-- internal/oofevents/impl.go and bus.go: the event bus. The goroutines around a bus are a schedule
-- of actions, one for each step that another goroutine can see: the two halves of a publish, the
-- registration and the cancelling of a subscription, Start, Stop, and the steps of the dispatcher, of
-- which the test of `cancelled` and the call of the handler are two.
pub mod Fifo
pub mod Delivery
pub mod Shutdown
use oof_rl.Prelude.{
  ℕ, suc, ◌+◌, Text, Bool, true, false, not, ◌||◌, Option, none, some, List, [], ◌∷◌, ◌++◌, length,
  ltb, leb, nat_beq, ◌==◌, nat_comparable, text_comparable, lookup, insert, remove, if◌then◌else◌,
}
use oof_rl.Oofevents.Types.{
  Certainty, authoritative, inferred, signal, rank, Source, Event, base, event_type, certainty,
  stamped,
}

abbrev pub dispatch_buffer : ℕ
dispatch_buffer = 256

-- A *sub. `fn` names the handler; `min` is the test in the closure of SubscribeMinCertainty.
pub record Sub : Type 0 where
  pub fn : ℕ
  pub event_type : Text
  pub min : Option Certainty
  pub cancelled : Bool

-- A busImpl, the subs that its pointers lead to, and the goroutines that use it.
pub record Bus : Type 0 where
  pub queue : List Event  -- ch, a channel with room for `dispatch_buffer` events
  pub closed : Bool  -- whether ch is closed
  pub subs : List (Text × List ℕ)
  pub all_subs : List ℕ
  pub heap : List (ℕ × Sub)
  pub next_id : ℕ
  pub stopped : Bool
  pub started : Bool
  pub in_flight : List (ℕ × Event)  -- goroutines between the two halves of publish
  pub current : Option (Event × List ℕ)  -- the dispatcher's event and the subs it has yet to test
  pub calling : Option (ℕ × Event)  -- the sub that passed the test of `cancelled` and is called next

unfoldable pub new : Bus
new = record {
  queue = [];
  closed = false;
  subs = [];
  all_subs = [];
  heap = [];
  next_id = 0;
  stopped = false;
  started = false;
  in_flight = [];
  current = none;
  calling = none;
}

-- What a step lets be seen: the fate of a published event, an event that the dispatcher takes from
-- the channel, and the calls of handlers.
pub data Obs : Type 0 where
  refused accepted dropped crashed took : Event → Obs
  called filtered : ℕ → Event → Obs

-- publish, first half: the test of `stopped`. Goroutine `g` goes on only if the bus runs.
unfoldable pub check_stopped : ℕ → Event → Bus → Bus × List Obs
check_stopped g e b =
    if b.stopped then (b, refused e ∷ []) else (record b { in_flight = insert g e b.in_flight }, [])

-- publish, second half: the select. A send on a closed channel panics.
unfoldable pub send : Event → Bus → Bus × List Obs
send e b =
    if b.closed
    then (b, crashed e ∷ [])
    else if ltb (length b.queue) dispatch_buffer
    then (record b { queue = b.queue ++ (e ∷ []) }, accepted e ∷ [])
    else (b, dropped e ∷ [])

send_found : Option Event → ℕ → Bus → Bus × List Obs
send_found none g b = (b, [])
send_found (some e) g b = send e (record b { in_flight = remove g b.in_flight })

unfoldable pub try_send : ℕ → Bus → Bus × List Obs
unfolding send_found
try_send g b = send_found (lookup g b.in_flight) g b

-- PublishAuthoritative, PublishInferred and PublishSignal test the certainty first; `none` is the
-- panic.
unfoldable pub publish_with_certainty : ℕ → Event → Certainty → Bus → Option (Bus × List Obs)
publish_with_certainty g e expected b =
    if nat_beq (rank (certainty e)) (rank expected) then some (check_stopped g e b) else none

unfoldable pub start : Bus → Bus
start b = record b { started = true }

-- Stop, without the wait for the dispatcher.
unfoldable pub stop : Bus → Bus
stop b = if b.stopped then b else record b { stopped = true; closed = true }

abbrev pub ids_or_nil : Option (List ℕ) → List ℕ
ids_or_nil none = []
ids_or_nil (some ids) = ids

-- subs[eventType], a nil slice for a missing key.
unfoldable pub ids_of : Text → List (Text × List ℕ) → List ℕ
ids_of typ subs = ids_or_nil (lookup typ subs)

abbrev alloc : Sub → Bus → Bus
alloc s b = record b { heap = insert b.next_id s b.heap; next_id = b.next_id + 1 }

-- The returned Subscription is the id of the sub, which is `next_id` before the call.
unfoldable pub subscribe_with : Text → Option Certainty → ℕ → Bus → Bus
subscribe_with typ min fn b =
    let b' = alloc (record { fn = fn; event_type = typ; min = min; cancelled = false }) b in
    record b' { subs = insert typ (ids_of typ b.subs ++ (b.next_id ∷ [])) b.subs }

unfoldable pub subscribe : Text → ℕ → Bus → Bus
unfolding subscribe_with
subscribe typ fn b = subscribe_with typ none fn b

unfoldable pub subscribe_min_certainty : Text → Certainty → ℕ → Bus → Bus
unfolding subscribe_with
subscribe_min_certainty typ min fn b = subscribe_with typ (some min) fn b

unfoldable pub subscribe_all : ℕ → Bus → Bus
subscribe_all fn b =
    let b' = alloc (record { fn = fn; event_type = []; min = none; cancelled = false }) b in
    record b' { all_subs = b.all_subs ++ (b.next_id ∷ []) }

abbrev pub cancel_sub : Option Sub → ℕ → List (ℕ × Sub) → List (ℕ × Sub)
cancel_sub none i heap = heap
cancel_sub (some s) i heap = insert i (record s { cancelled = true }) heap

-- canceller.Cancel
unfoldable pub cancel : ℕ → Bus → Bus
cancel i b = record b { heap = cancel_sub (lookup i b.heap) i b.heap }

-- Whether the closure that was registered passes the event on to its handler.
unfoldable pub passes_min : Option Certainty → Event → Bool
passes_min none e = true
passes_min (some min) e = leb (rank (certainty e)) (rank min)

-- call, first half: the test of `cancelled`, which another goroutine may set right afterwards.
unfoldable pub check_cancelled : Option Sub → ℕ → Event → Option (ℕ × Event)
check_cancelled none i e = none
check_cancelled (some s) i e = if s.cancelled then none else some (i, e)

-- call, second half: s.fn(e). A panic of the handler is recovered, so the dispatcher goes on.
unfoldable pub call_obs : Option Sub → ℕ → Event → List Obs
unfolding passes_min
call_obs none i e = []
call_obs (some s) i e = if passes_min s.min e then called i e ∷ [] else filtered i e ∷ []

-- The dispatcher takes the next event and copies the lists of subs, under the read lock.
unfoldable pub take_event : List Event → Bus → Bus × List Obs
take_event [] b = (b, [])
take_event (e ∷ rest) b =
    let ids = ids_of (event_type e) b.subs ++ b.all_subs in
    (record b { queue = rest; current = some (e, ids) }, took e ∷ [])

-- One step of the dispatcher's loops: between events it takes one, else it tests the next sub.
-- ResetMatch, which ends the round of a match.ended event, does nothing.
unfoldable pub dispatch_current : Option (Event × List ℕ) → Bus → Bus × List Obs
unfolding take_event check_cancelled
dispatch_current none b = take_event b.queue b
dispatch_current (some (e, [])) b = (record b { current = none }, [])
dispatch_current (some (e, i ∷ ids)) b =
    (record b { current = some (e, ids); calling = check_cancelled (lookup i b.heap) i e }, [])

-- The dispatcher goes on with the call that it has begun, else with its loops.
unfoldable pub dispatch_calling : Option (ℕ × Event) → Bus → Bus × List Obs
unfolding dispatch_current call_obs
dispatch_calling none b = dispatch_current b.current b
dispatch_calling (some (i, e)) b = (record b { calling = none }, call_obs (lookup i b.heap) i e)

unfoldable pub dispatch : Bus → Bus × List Obs
unfolding dispatch_calling
dispatch b = if b.started then dispatch_calling b.calling b else (b, [])

pub data Act : Type 0 where
  act_publish : ℕ → Event → Act
  act_send : ℕ → Act
  act_start act_stop act_dispatch : Act
  act_subscribe : Text → Option Certainty → ℕ → Act
  act_subscribe_all : ℕ → Act
  act_cancel : ℕ → Act

unfoldable pub step : Bus → Act → Bus × List Obs
step b (act_publish g e) = check_stopped g e b
step b (act_send g) = try_send g b
step b act_start = (start b, [])
step b act_stop = (stop b, [])
step b act_dispatch = dispatch b
step b (act_subscribe typ min fn) = (subscribe_with typ min fn b, [])
step b (act_subscribe_all fn) = (subscribe_all fn b, [])
step b (act_cancel i) = (cancel i b, [])

-- A schedule, and all that it lets be seen.
unfoldable pub run : Bus → List Act → Bus × List Obs
run b [] = (b, [])
run b (a ∷ acts) =
    let (b', seen) = step b a in let (b'', later) = run b' acts in (b'', seen ++ later)

-- ForPlugin, stamp and Unwrap.
unfoldable pub stamp : Text → Event → Event
stamp plugin_id e = stamped e (record { plugin_id = plugin_id; label = [] })

unfoldable pub unwrap : Event → Event
unwrap (stamped e src) = e
unwrap e = e
