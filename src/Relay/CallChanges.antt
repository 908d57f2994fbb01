-- ===== src/Relay/CallChanges.antt =====
-- The steps of a call in internal/relay/broker.go change no registration, and of a peer only what
-- a change may.
use chat_with_cli.Base.{
  ℕ, ◌-◌, not, ◌+◌, Str, Option, none, some, ◌⊎◌, inl, inr, refl, arith, ◌==◌, nat_eq, str_beq_iff,
  str_eq, Option-cases, ltb,
}
use chat_with_cli.Base.Map
use chat_with_cli.Base.Map.{Map}
use chat_with_cli.Relay.{
  Broker, Response, set_peer, close_peer, peer_authorized, authorization_revoked,
}
use chat_with_cli.Relay.Call.{
  Call, located, slotted, prepared, waiting, returned, Event, slot_free, deadline, peer_done,
  answered, new_id, send, tick, call_step, max_calls, finish, receive_from, outcome, CallError,
  caller_revoked, agent_revoked, timed_out, write_failed, disconnected, take_slot, prepare,
  send_request, receive, revalidate, peer_gone,
}
use chat_with_cli.Relay.Steps.{IsChange, IsMatched}
use chat_with_cli.Relay.Changes.{
  either, set_peer-IsChange, same-IsChange, closing-IsChange, record_traffic-IsChange,
}

module _ (a : Broker) where
  pub pending-IsChange :
      (b : Broker) (i : ℕ) (m : Map (Option Response))
      → (IsMatched (b.heap i) → IsMatched (record (b.heap i) { pending = m }))
      → IsChange a b
      → IsChange a (set_peer b i (record (b.heap i) { pending = m }))
  pending-IsChange b i m k w =
      set_peer-IsChange a b i (record (b.heap i) { pending = m })
        (record {
          device = refl;
          loop = inl refl;
          still_open = λ h. (h, refl, refl);
          closed = λ h. (h, refl);
          matched = k;
        })
        w

  pub finish-IsChange :
      (b : Broker) (i : ℕ) (id : Str) (r : CallError ⊎ Str)
      → IsChange a b
      → IsChange a (finish b i id r).0
  unfolding finish
  finish-IsChange b i id r w =
      let c = set_peer b i (record (b.heap i) { pending = Map.remove (b.heap i).pending id }) in
      same-IsChange a c (record c { slots = b.slots - 1 }) refl refl refl
        (pending-IsChange b i (Map.remove (b.heap i).pending id)
          (λ m j r h. m j r (Map.get_of_removed (b.heap i).pending id j (some r) h)) w)

  pub waiting-IsChange :
      (b : Broker) (i : ℕ) (id : Str) (e : Event)
      → IsChange a b
      → IsChange a (call_step b (waiting i id) e).0
  unfolding call_step receive receive_from revalidate peer_gone
  waiting-IsChange b i id answered w = elim (Option-cases (Map.get (b.heap i).pending id)) [
    | inl e ↦ rw e w
    | inr (none, e) ↦ rw e w
    | inr (some r, e) ↦ rw e (finish-IsChange b i id (outcome r) w)
  ]
  waiting-IsChange b i id (tick auth allowed) w =
      either (λ (r : Broker × Call). IsChange a r.0) (not allowed)
        (finish-IsChange b i id (inl caller_revoked) w)
        (either (λ (r : Broker × Call). IsChange a r.0) (not (peer_authorized auth (b.heap i)))
          (finish-IsChange (set_peer b i (close_peer (b.heap i) authorization_revoked)) i id
            (inl agent_revoked) (closing-IsChange a b i authorization_revoked w))
          w)
  waiting-IsChange b i id peer_done w =
      either (λ (r : Broker × Call). IsChange a r.0) (not (b.heap i).done) w
        (either (λ (r : Broker × Call). IsChange a r.0)
          ((b.heap i).close_reason == authorization_revoked)
          (finish-IsChange b i id (inl agent_revoked) w)
          (finish-IsChange b i id (inl disconnected) w))
  waiting-IsChange b i id deadline w = finish-IsChange b i id (inl timed_out) w
  waiting-IsChange b i id slot_free w = w
  waiting-IsChange b i id (new_id x) w = w
  waiting-IsChange b i id (send allowed size written) w = w

  pub prepared-IsChange :
      (b : Broker) (i : ℕ) (id : Str) (e : Event)
      → IsChange a b
      → IsChange a (call_step b (prepared i id) e).0
  unfolding call_step send_request
  prepared-IsChange b i id (send allowed size written) w =
      either (λ (r : Broker × Call). IsChange a r.0) (not allowed)
        (finish-IsChange b i id (inl caller_revoked) w)
        (either (λ (r : Broker × Call). IsChange a r.0) (not written)
          (finish-IsChange b i id (inl write_failed) w)
          (record_traffic-IsChange a b (b.heap i).device size w))
  prepared-IsChange b i id (tick auth allowed) w = w
  prepared-IsChange b i id peer_done w = w
  prepared-IsChange b i id deadline w = w
  prepared-IsChange b i id answered w = w
  prepared-IsChange b i id slot_free w = w
  prepared-IsChange b i id (new_id x) w = w

  pub slotted-IsChange :
      (b : Broker) (i : ℕ) (e : Event) → IsChange a b → IsChange a (call_step b (slotted i) e).0
  unfolding call_step prepare
  slotted-IsChange b i (new_id id) w =
      pending-IsChange b i (Map.put (b.heap i).pending id none)
        (λ m j r h.
          ground (arith, m j r, Map.get-put (b.heap i).pending id j none, str_beq_iff id j))
        w
  slotted-IsChange b i (send allowed size written) w = w
  slotted-IsChange b i (tick auth allowed) w = w
  slotted-IsChange b i peer_done w = w
  slotted-IsChange b i deadline w = w
  slotted-IsChange b i answered w = w
  slotted-IsChange b i slot_free w = w

  pub located-IsChange :
      (b : Broker) (i : ℕ) (e : Event) → IsChange a b → IsChange a (call_step b (located i) e).0
  unfolding call_step take_slot
  located-IsChange b i slot_free w =
      either (λ (r : Broker × Call). IsChange a r.0) (ltb b.slots max_calls)
        (same-IsChange a b (record b { slots = b.slots + 1 }) refl refl refl w) w
  located-IsChange b i (send allowed size written) w = w
  located-IsChange b i (tick auth allowed) w = w
  located-IsChange b i peer_done w = w
  located-IsChange b i deadline w = w
  located-IsChange b i answered w = w
  located-IsChange b i (new_id x) w = w

  pub call_step-IsChange :
      (b : Broker) (c : Call) (e : Event) → IsChange a b → IsChange a (call_step b c e).0
  unfolding call_step
  call_step-IsChange b (located i) e w = located-IsChange b i e w
  call_step-IsChange b (slotted i) e w = slotted-IsChange b i e w
  call_step-IsChange b (prepared i id) e w = prepared-IsChange b i id e w
  call_step-IsChange b (waiting i id) e w = waiting-IsChange b i id e w
  call_step-IsChange b (returned r) e w = w
