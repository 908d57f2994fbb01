-- ===== src/Relay/Slots.antt =====
-- callSlots of internal/relay/broker.go: the calls in progress, side by side with the other steps.
use chat_with_cli.Base.{
  ℕ, ◌+◌, ◌≤◌, Str, List, [], ◌∷◌, ◌++◌, Bool, true, false, ◌≡◌, ◌∙◌, refl, arith,
}
use chat_with_cli.Relay.{
  Broker, Authorizer, new_broker, connect, close_replaced, read_frame, read_failed, leave,
  watch_tick, disconnect_device, probe, set_peer, register, unregister, mark_replaced,
  record_traffic, read_message, disconnect_peer, probe_peer,
}
use chat_with_cli.Relay.Call.{
  Call, located, slotted, prepared, waiting, returned, Event, call_step, start_call, start_peer,
  max_calls, slot_free, deadline, peer_done, answered, new_id, send, tick, take_slot, prepare,
  send_request, receive, receive_from, revalidate, peer_gone, finish,
}
use chat_with_cli.Relay.Steps.{Step}

-- The number of slots that a call has taken and not given back.
pub held : Call → ℕ
held (located i) = 0
held (slotted i) = 1
held (prepared i id) = 1
held (waiting i id) = 1
held (returned result) = 0

pub held_by : List Call → ℕ
unfolding held
held_by [] = 0
held_by (c ∷ calls) = held c + held_by calls

-- A step that is not part of a call.
unfoldable pub elsewhere : {b c : Broker} → Step b c → Bool
elsewhere (Step.calls device auth allowed) = false
elsewhere (Step.continues k e) = false
elsewhere (Step.connects auth device hash now) = true
elsewhere (Step.closes i h) = true
elsewhere (Step.reads i f now h) = true
elsewhere (Step.fails i h) = true
elsewhere (Step.leaves i h) = true
elsewhere (Step.watches i auth) = true
elsewhere (Step.resets device) = true
elsewhere (Step.probes auth device) = true

-- The broker with all calls that have been made, returned ones included: a call is made, one of
-- them goes on, or another goroutine takes a step.
pub data Turn : Broker → List Call → Broker → List Call → Type 0 where
  made :
      {b : Broker} {calls : List Call}
      → (device : Str) (auth : Authorizer) (allowed : Bool)
      → Turn b calls
          (start_call b device auth allowed).0
          ((start_call b device auth allowed).1 ∷ calls)
  goes_on :
      {b : Broker}
      → (before : List Call) (c : Call) (after : List Call) (e : Event)
      → Turn b (before ++ (c ∷ after)) (call_step b c e).0 (before ++ ((call_step b c e).1 ∷ after))
  beside :
      {b c : Broker} {calls : List Call}
      → (s : Step b c) → elsewhere s ≡ true
      → Turn b calls c calls

pub data Turns : Broker → List Call → Broker → List Call → Type 0 where
  here : {b : Broker} {calls : List Call} → Turns b calls b calls
  then : {b c d : Broker} {k l m : List Call} → Turn b k c l → Turns c l d m → Turns b k d m

-- As many slots are taken as calls hold one, and never more than there are.
pub IsCounted : Broker → List Call → Type 0
IsCounted b calls = (b.slots ≡ held_by calls) × (b.slots ≤ max_calls)

held_by-append : (k l : List Call) → held_by (k ++ l) ≡ held_by k + held_by l
unfolding held_by
held_by-append [] l = omega arith
held_by-append (c ∷ k) l = omega (arith, held_by-append k l)

call_step-held :
    (b : Broker) (c : Call) (e : Event)
    → held c ≤ b.slots
    → (call_step b c e).0.slots + held c ≡ b.slots + held (call_step b c e).1
unfolding call_step take_slot prepare send_request receive receive_from revalidate peer_gone finish
    record_traffic set_peer held
call_step-held b (located i) slot_free h = ground arith
call_step-held b (located i) deadline h = refl
call_step-held b (located i) answered h = refl
call_step-held b (located i) peer_done h = refl
call_step-held b (located i) (new_id x) h = refl
call_step-held b (located i) (send allowed size written) h = refl
call_step-held b (located i) (tick auth allowed) h = refl
call_step-held b (slotted i) (new_id x) h = refl
call_step-held b (slotted i) slot_free h = refl
call_step-held b (slotted i) deadline h = refl
call_step-held b (slotted i) answered h = refl
call_step-held b (slotted i) peer_done h = refl
call_step-held b (slotted i) (send allowed size written) h = refl
call_step-held b (slotted i) (tick auth allowed) h = refl
call_step-held b (prepared i id) (send allowed size written) h = ground arith
call_step-held b (prepared i id) (new_id x) h = refl
call_step-held b (prepared i id) slot_free h = refl
call_step-held b (prepared i id) deadline h = refl
call_step-held b (prepared i id) answered h = refl
call_step-held b (prepared i id) peer_done h = refl
call_step-held b (prepared i id) (tick auth allowed) h = refl
call_step-held b (waiting i id) answered h = ground arith
call_step-held b (waiting i id) (tick auth allowed) h = ground arith
call_step-held b (waiting i id) peer_done h = ground arith
call_step-held b (waiting i id) deadline h = ground arith
call_step-held b (waiting i id) (new_id x) h = refl
call_step-held b (waiting i id) slot_free h = refl
call_step-held b (waiting i id) (send allowed size written) h = refl
call_step-held b (returned result) e h = refl

call_step-slots :
    (b : Broker) (c : Call) (e : Event)
    → b.slots ≤ max_calls
    → (call_step b c e).0.slots ≤ max_calls
unfolding call_step take_slot prepare send_request receive receive_from revalidate peer_gone finish
    record_traffic set_peer
call_step-slots b (located i) e h = ground arith
call_step-slots b (slotted i) e h = ground arith
call_step-slots b (prepared i id) e h = ground arith
call_step-slots b (waiting i id) e h = ground arith
call_step-slots b (returned result) e h = h

start_call_lem :
    (b : Broker) (device : Str) (auth : Authorizer) (allowed : Bool)
    → ((start_call b device auth allowed).0.slots ≡ b.slots)
      × (held (start_call b device auth allowed).1 ≡ 0)
unfolding start_call start_peer set_peer held
start_call_lem b device auth allowed = ground arith

elsewhere-slots : {b c : Broker} (s : Step b c) → elsewhere s ≡ true → c.slots ≡ b.slots
unfolding elsewhere connect register mark_replaced set_peer close_replaced read_frame read_message
    record_traffic read_failed leave unregister watch_tick disconnect_device disconnect_peer probe
    probe_peer
elsewhere-slots (Step.calls device auth allowed) h = cc
elsewhere-slots (Step.continues k e) h = cc
elsewhere-slots (Step.connects auth device hash now) h = ground arith
elsewhere-slots (Step.closes i r) h = refl
elsewhere-slots (Step.reads i f now r) h = ground arith
elsewhere-slots (Step.fails i r) h = ground arith
elsewhere-slots (Step.leaves i r) h = ground arith
elsewhere-slots (Step.watches i auth) h = ground arith
elsewhere-slots (Step.resets device) h = ground arith
elsewhere-slots (Step.probes auth device) h = ground arith

Turn-IsCounted : {b c : Broker} {k l : List Call} → Turn b k c l → IsCounted b k → IsCounted c l
unfolding IsCounted held_by
Turn-IsCounted (Turn.made {b} {calls} device auth allowed) (p, q) =
    let (x, y) = start_call_lem b device auth allowed in
    (omega (arith, x, y, p), omega (arith, x, q))
Turn-IsCounted (Turn.goes_on {b} before c after e) (p, q) =
    let x = held_by-append before (c ∷ after) in
    let y = held_by-append before ((call_step b c e).1 ∷ after) in
    let small : held c ≤ b.slots = omega (arith, x, p) in
    (omega (arith, x, y, p, call_step-held b c e small), call_step-slots b c e q)
Turn-IsCounted (Turn.beside s h) (p, q) =
    let x = elsewhere-slots s h in (x ∙ p, omega (arith, x, q))

Turns-IsCounted : {b c : Broker} {k l : List Call} → Turns b k c l → IsCounted b k → IsCounted c l
Turns-IsCounted Turns.here w = w
Turns-IsCounted (Turns.then t r) w = Turns-IsCounted r (Turn-IsCounted t w)

-- However calls, connections and the other goroutines take their turns from the new broker on, as
-- many slots are taken as there are calls between the receipt of their slot and their return, and
-- these are at most 32.
pub slots_held :
    (observed : Bool) (b : Broker) (calls : List Call)
    → Turns (new_broker observed) [] b calls
    → (b.slots ≡ held_by calls) × (held_by calls ≤ max_calls)
unfolding new_broker IsCounted held_by
slots_held observed b calls r =
    let (p, q) = Turns-IsCounted r (refl, omega arith) in (p, omega (arith, p, q))
