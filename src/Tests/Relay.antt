-- ===== src/Tests/Relay.antt =====
-- A relay with one workstation that connects, answers a call and is replaced.
use chat_with_cli.Base.{
  List, [], ◌∷◌, ℕ, ◌+◌, ◌<◌, ◌≤◌, Str, none, some, true, false, codes, is_empty, ◌≡◌, ◌≢◌, inl,
  inr, refl, arith, str_beq, str_beq_iff,
}
use chat_with_cli.Base.Map
use chat_with_cli.Relay.{
  Broker, Response, Frame, Authorizer, new_broker, connect, accept_agent, leave, read_failed,
  read_frame, may_connect, peer_authorized, reading, new_peer, set_peer, close_peer,
  disconnect_device,
}
use chat_with_cli.Relay.Call.{
  Call, max_calls, located, slotted, prepared, waiting, returned, slot_free, answered, new_id, send,
  tick, call_step, start_call, agent_revoked, write_failed, peer_done,
}
use chat_with_cli.Relay.Steps.{Step, Steps, IsBroker}
use chat_with_cli.Relay.Invariant.{reachable-IsBroker}
use chat_with_cli.Relay.Closing.{Steps-closed}
use chat_with_cli.Relay.Accept.{
  leave_registered, accept_agent_replaces, accept_agent_bound, connect_race,
}
use chat_with_cli.Relay.Slots.{Turn, Turns, elsewhere, held_by, slots_held}
use chat_with_cli.Relay.Reply.{call_result}
use chat_with_cli.Relay.Returned.{Released, call_returned}
use chat_with_cli.Relay.Revoked.{revoked_ends}
use chat_with_cli.Tests.Fixture.{strings_run, maps_run}

unfoldable relay_runs : Unit {0}
unfolding strings_run maps_run elsewhere new_broker connect accept_agent leave read_failed
    read_frame may_connect peer_authorized new_peer set_peer close_peer disconnect_device call_step
    start_call
relay_runs = tt

abbrev desk : Str
desk = codes "desk"

abbrev lamp : Str
lamp = codes "lamp"

abbrev hash : Str
hash = codes "h"

-- Admits every Agent.
abbrev open_door : Authorizer
open_door = some (λ d h. true)

-- Admits none.
abbrev shut_door : Authorizer
shut_door = some (λ d h. false)

abbrev start : Broker
start = new_broker true

abbrev online : Broker
online = connect start open_door desk hash 1

abbrev reply : Response
reply = record { id = codes "7"; result = codes "ok"; error = codes "" }

abbrev message : Frame
message = record { size = 20; request = none; response = some reply }

abbrev called : Broker
called = (start_call online desk open_door true).0

abbrev admitted : Broker
admitted = (call_step called (located 0) slot_free).0

abbrev named : Broker
named = (call_step admitted (slotted 0) (new_id (codes "7"))).0

abbrev sent : Broker
sent = (call_step named (prepared 0 (codes "7")) (send true 30 true)).0

abbrev replied : Broker
replied = read_frame sent 0 message 2

sent-reading : (sent.heap 0).read_loop ≡ reading
unfolding relay_runs
sent-reading = refl

answered_path : Steps start replied
answered_path = Steps.then (Step.connects open_door desk hash 1) (
    Steps.then (Step.calls desk open_door true) (
      Steps.then (Step.continues (located 0) slot_free) (
        Steps.then (Step.continues (slotted 0) (new_id (codes "7"))) (
          Steps.then (Step.continues (prepared 0 (codes "7")) (send true 30 true))
            (Steps.then (Step.reads 0 message 2 sent-reading) Steps.here)))))

reachable-IsBroker_example : IsBroker replied
reachable-IsBroker_example = reachable-IsBroker true replied answered_path

ends_well : (call_step replied (waiting 0 (codes "7")) answered).1 ≡ returned (inr (codes "ok"))
unfolding relay_runs
ends_well = refl

call_result_example :
    (r : Response) × (Map.get (replied.heap 0).pending (codes "7") ≡ some (some r))
    × (r.id ≡ codes "7")
    × (r.result ≡ codes "ok")
    × (is_empty r.error ≡ true)
call_result_example =
    call_result true replied 0 (codes "7") answered (codes "ok") answered_path ends_well

-- The request cannot be written.
write_fails :
    (call_step named (prepared 0 (codes "7")) (send true 30 false)).1 ≡ returned (inl write_failed)
unfolding relay_runs
write_fails = refl

call_returned_example :
    Released named
      (call_step named (prepared 0 (codes "7")) (send true 30 false)).0
      (prepared 0 (codes "7"))
call_returned_example =
    call_returned named (prepared 0 (codes "7")) (send true 30 false) (inl write_failed) write_fails

-- A second call is made while the first holds a slot; its request cannot be written, and it
-- returns.
abbrev second_called : Broker
second_called = (start_call admitted desk open_door true).0

abbrev second_admitted : Broker
second_admitted = (call_step second_called (located 0) slot_free).0

abbrev second_named : Broker
second_named = (call_step second_admitted (slotted 0) (new_id (codes "8"))).0

abbrev second_failed : Broker
second_failed = (call_step second_named (prepared 0 (codes "8")) (send true 30 false)).0

abbrev first_held : List Call
first_held = slotted 0 ∷ []

connects : Turn start [] online []
unfolding relay_runs
connects = Turn.beside (Step.connects open_door desk hash 1) refl

first_made : Turn online [] called (located 0 ∷ [])
unfolding relay_runs
first_made = Turn.made desk open_door true

first_admitted : Turn called (located 0 ∷ []) admitted first_held
unfolding relay_runs
first_admitted = Turn.goes_on [] (located 0) [] slot_free

second_made : Turn admitted first_held second_called (located 0 ∷ first_held)
unfolding relay_runs
second_made = Turn.made desk open_door true

second_slotted :
    Turn second_called (located 0 ∷ first_held) second_admitted (slotted 0 ∷ first_held)
unfolding relay_runs
second_slotted = Turn.goes_on [] (located 0) first_held slot_free

second_prepared :
    Turn second_admitted (slotted 0 ∷ first_held) second_named (prepared 0 (codes "8") ∷ first_held)
unfolding call_step
second_prepared = Turn.goes_on [] (slotted 0) first_held (new_id (codes "8"))

second_returned :
    Turn second_named
      (prepared 0 (codes "8") ∷ first_held)
      second_failed
      (returned (inl write_failed) ∷ first_held)
unfolding call_step
second_returned = Turn.goes_on [] (prepared 0 (codes "8")) first_held (send true 30 false)

turns : Turns start [] second_failed (returned (inl write_failed) ∷ first_held)
turns = Turns.then connects (
    Turns.then first_made (
      Turns.then first_admitted (
        Turns.then second_made (
          Turns.then second_slotted
            (Turns.then second_prepared (Turns.then second_returned Turns.here))))))

slots_held_example :
    (second_failed.slots ≡ held_by (returned (inl write_failed) ∷ first_held))
    × (held_by (returned (inl write_failed) ∷ first_held) ≤ max_calls)
slots_held_example = slots_held true second_failed (returned (inl write_failed) ∷ first_held) turns

-- A second call waits when the first finds the authorization of the Agent revoked.
abbrev other_called : Broker
other_called = (start_call sent desk open_door true).0

abbrev other_admitted : Broker
other_admitted = (call_step other_called (located 0) slot_free).0

abbrev other_named : Broker
other_named = (call_step other_admitted (slotted 0) (new_id (codes "8"))).0

abbrev both_sent : Broker
both_sent = (call_step other_named (prepared 0 (codes "8")) (send true 30 true)).0

both_sent-open : (both_sent.heap 0).done ≡ false
unfolding relay_runs
both_sent-open = refl

both_sent_made : 0 < both_sent.next
unfolding relay_runs
both_sent_made = omega arith

abbrev cut : Broker
cut = (call_step both_sent (waiting 0 (codes "7")) (tick shut_door true)).0

revoked_ends_example :
    (call_step (connect cut open_door lamp hash 3) (waiting 0 (codes "8")) peer_done).1
    ≡ returned (inl agent_revoked)
unfolding peer_authorized
revoked_ends_example =
    revoked_ends both_sent (connect cut open_door lamp hash 3) 0 (codes "7") (codes "8") shut_door
      both_sent_made both_sent-open refl
      (Steps.then (Step.connects open_door lamp hash 3) Steps.here)

-- The owner resets the session, then the Agent connects again.
abbrev reset : Broker
reset = disconnect_device online desk

abbrev again : Broker
again = connect reset open_door desk hash 3

reset-closed : (reset.heap 0).done ≡ true
unfolding relay_runs
reset-closed = refl

reset_made : 0 < reset.next
unfolding relay_runs
reset_made = omega arith

Steps-closed_example :
    ((again.heap 0).done ≡ true) × ((again.heap 0).close_reason ≡ (reset.heap 0).close_reason)
Steps-closed_example =
    Steps-closed reset again 0 (Steps.then (Step.connects open_door desk hash 3) Steps.here)
      reset_made reset-closed

online-IsBroker : IsBroker online
online-IsBroker =
    reachable-IsBroker true online (Steps.then (Step.connects open_door desk hash 1) Steps.here)

let_in : may_connect online desk ≡ true
unfolding relay_runs
let_in = refl

accept_agent_replaces_example :
    (Map.get (accept_agent online open_door desk hash 4).peers desk ≡ some online.next)
    × (((accept_agent online open_door desk hash 4).heap online.next).done ≡ false)
    × (((accept_agent online open_door desk hash 4).heap online.next).credential_hash ≡ hash)
    × ((j : ℕ)
        → Map.get online.peers desk ≡ some j
        → (((accept_agent online open_door desk hash 4).heap j).done ≡ true)
          × (((accept_agent online open_door desk hash 4).heap j).conn_open ≡ false))
    × ((d : Str)
        → desk ≢ d
        → Map.get (accept_agent online open_door desk hash 4).peers d ≡ Map.get online.peers d)
unfolding peer_authorized
accept_agent_replaces_example =
    accept_agent_replaces online open_door desk hash 4 online-IsBroker let_in refl

again-IsBroker : IsBroker again
again-IsBroker = reachable-IsBroker true again (
    Steps.then (Step.connects open_door desk hash 1)
      (Steps.then (Step.resets desk) (Steps.then (Step.connects open_door desk hash 3) Steps.here)))

leave_registered_example :
    ((d : Str) → Map.get (leave again 0).peers d ≢ some 0)
    × ((d : Str) (j : ℕ)
        → j ≢ 0
        → Map.get again.peers d ≡ some j
        → Map.get (leave again 0).peers d ≡ some j)
leave_registered_example = leave_registered again 0 again-IsBroker

few : Map.size online.peers ≤ online.max_connections
unfolding relay_runs
few = omega arith

accept_agent_bound_example :
    Map.size (accept_agent online open_door lamp hash 4).peers ≤ online.max_connections
accept_agent_bound_example = accept_agent_bound online open_door lamp hash 4 few

-- A relay that has one place.
abbrev narrow : Broker
narrow = record start { max_connections = 1 }

differ : desk ≢ lamp
unfolding str_beq
differ = λ e. let k : false ≡ true = (str_beq_iff desk lamp).1 e in cc

vacant : (d : Str) → Map.get narrow.peers d ≡ none
unfolding relay_runs
vacant d = refl

last_place : Map.size narrow.peers + 1 ≡ 1
unfolding relay_runs
last_place = refl

connect_race_example :
    (may_connect narrow desk ≡ true)
    × (may_connect narrow lamp ≡ true)
    × (Map.size (connect (connect narrow open_door desk hash 1) open_door lamp hash 1).peers ≡ 2)
unfolding peer_authorized
connect_race_example =
    connect_race narrow open_door desk lamp hash 1 differ (vacant desk) (vacant lamp) last_place
      refl refl
