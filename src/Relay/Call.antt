-- ===== src/Relay/Call.antt =====
-- (*Broker).Call of internal/relay/broker.go: where a call stands, and what it does with each
-- event.
use chat_with_cli.Base.{
  ℕ, ◌+◌, ◌-◌, Str, Option, none, some, Bool, not, is_empty, ltb, ◌==◌, nat_eq, str_eq,
  if◌then◌else◌, ◌⊎◌, inl, inr,
}
use chat_with_cli.Base.Map
use chat_with_cli.Relay.{
  Broker, Response, Authorizer, peer_authorized, set_peer, close_peer, record_traffic,
  authorization_revoked,
}

pub data CallError : Type 0 where
  offline caller_revoked agent_revoked timed_out write_failed disconnected : CallError
  failed : Str → CallError

-- located: the peer is known and both authorizations hold; slotted: a slot of callSlots is taken;
-- prepared: the channel is in pending; waiting: the request is written.
pub data Call : Type 0 where
  located slotted : ℕ → Call
  prepared waiting : ℕ → Str → Call
  returned : CallError ⊎ Str → Call

-- What a call meets: a free slot, the end of its context, its new identifier, the caller's
-- authorization with the length of the request and whether the write succeeds, a response in its
-- channel, a tick with both authorizations, the closed channel of its peer.
pub data Event : Type 0 where
  slot_free deadline peer_done answered : Event
  new_id : Str → Event
  send : Bool → ℕ → Bool → Event
  tick : Authorizer → Bool → Event

abbrev pub max_calls : ℕ
max_calls = 32

-- Until the call waits for a slot.
unfoldable pub start_peer : Broker → Authorizer → Bool → Option ℕ → Broker × Call
unfolding peer_authorized set_peer close_peer
start_peer b auth allowed none = (b, returned (inl offline))
start_peer b auth allowed (some i) =
    if not allowed
    then (b, returned (inl caller_revoked))
    else if not (peer_authorized auth (b.heap i))
    then (set_peer b i (close_peer (b.heap i) authorization_revoked), returned (inl agent_revoked))
    else (b, located i)

unfoldable pub start_call : Broker → Str → Authorizer → Bool → Broker × Call
unfolding start_peer
start_call b device auth allowed = start_peer b auth allowed (Map.get b.peers device)

-- The deferred calls: the channel leaves pending and the slot is free again.
unfoldable pub finish : Broker → ℕ → Str → CallError ⊎ Str → Broker × Call
unfolding set_peer
finish b i id result = (
  record (set_peer b i (record (b.heap i) { pending = Map.remove (b.heap i).pending id })) {
    slots = b.slots - 1;
  },
  returned result,
)

unfoldable pub take_slot : Broker → ℕ → Broker × Call
take_slot b i =
    if ltb b.slots max_calls then (record b { slots = b.slots + 1 }, slotted i) else (b, located i)

unfoldable pub prepare : Broker → ℕ → Str → Broker × Call
unfolding set_peer
prepare b i id = (
  set_peer b i (record (b.heap i) { pending = Map.put (b.heap i).pending id none }),
  prepared i id,
)

unfoldable pub send_request : Broker → ℕ → Str → Bool → ℕ → Bool → Broker × Call
unfolding finish record_traffic
send_request b i id allowed size written =
    if not allowed
    then finish b i id (inl caller_revoked)
    else if not written
    then finish b i id (inl write_failed)
    else (record_traffic b (b.heap i).device size, waiting i id)

unfoldable pub outcome : Response → CallError ⊎ Str
outcome r = if not (is_empty r.error) then inl (failed r.error) else inr r.result

unfoldable pub receive_from : Broker → ℕ → Str → Option (Option Response) → Broker × Call
unfolding finish outcome
receive_from b i id none = (b, waiting i id)
receive_from b i id (some none) = (b, waiting i id)
receive_from b i id (some (some r)) = finish b i id (outcome r)

unfoldable pub receive : Broker → ℕ → Str → Broker × Call
unfolding receive_from
receive b i id = receive_from b i id (Map.get (b.heap i).pending id)

unfoldable pub revalidate : Broker → ℕ → Str → Authorizer → Bool → Broker × Call
unfolding finish peer_authorized set_peer close_peer
revalidate b i id auth allowed =
    if not allowed
    then finish b i id (inl caller_revoked)
    else if not (peer_authorized auth (b.heap i))
    then finish (set_peer b i (close_peer (b.heap i) authorization_revoked)) i id
        (inl agent_revoked)
    else (b, waiting i id)

unfoldable pub peer_gone : Broker → ℕ → Str → Broker × Call
unfolding finish
peer_gone b i id =
    if not (b.heap i).done
    then (b, waiting i id)
    else if (b.heap i).close_reason == authorization_revoked
    then finish b i id (inl agent_revoked)
    else finish b i id (inl disconnected)

-- An event that a call cannot meet where it stands leaves everything as it is.
unfoldable pub call_step : Broker → Call → Event → Broker × Call
unfolding take_slot prepare send_request receive revalidate peer_gone finish
call_step b (located i) e = elim e [
  | slot_free ↦ take_slot b i
  | deadline ↦ (b, returned (inl timed_out))
  | _ ↦ (b, located i)
]
call_step b (slotted i) e = elim e [ new_id id ↦ prepare b i id | _ ↦ (b, slotted i) ]
call_step b (prepared i id) e = elim e [
  | send allowed size written ↦ send_request b i id allowed size written
  | _ ↦ (b, prepared i id)
]
call_step b (waiting i id) e = elim e [
  | answered ↦ receive b i id
  | tick auth allowed ↦ revalidate b i id auth allowed
  | peer_done ↦ peer_gone b i id
  | deadline ↦ finish b i id (inl timed_out)
  | _ ↦ (b, waiting i id)
]
call_step b (returned result) e = (b, returned result)
