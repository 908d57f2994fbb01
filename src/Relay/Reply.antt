-- ===== src/Relay/Reply.antt =====
-- What a call of internal/relay/broker.go returns.
use chat_with_cli.Base.{
  ℕ, ◌-◌, Str, is_empty, none, some, Bool, true, false, ◌≡◌, ◌≢◌, ◌⊎◌, inl, inr, refl, arith, ◌==◌,
  nat_eq, str_eq, str_beq_iff, Option-cases, Bool-cases, if◌then◌else◌,
}
use chat_with_cli.Base.Map
use chat_with_cli.Relay.{
  Broker, Response, peer_authorized, set_peer, close_peer, authorization_revoked, new_broker,
}
use chat_with_cli.Relay.Call.{
  Call, waiting, returned, Event, slot_free, deadline, peer_done, answered, new_id, send, tick,
  call_step, finish, receive, receive_from, outcome, revalidate, peer_gone, CallError,
  caller_revoked, agent_revoked, timed_out, disconnected,
}
use chat_with_cli.Relay.Steps.{Steps}
use chat_with_cli.Relay.Changes.{either}
use chat_with_cli.Relay.Closing.{Steps-IsKept}

returned_inj : (x y : CallError ⊎ Str) → returned x ≡ returned y → x ≡ y
returned_inj x y e = cc

-- How a call that holds a channel has returned.
pub record IsFinish (b : Broker) (i : ℕ) (id : Str) (s : Broker × Call) : Type 0 where
  pub at : Broker
  pub result : CallError ⊎ Str
  pub ends : s ≡ finish at i id result
  pub pending : (j : ℕ) → (at.heap j).pending ≡ (b.heap j).pending
  pub slots : at.slots ≡ b.slots
  pub answer :
      (x : Str)
      → result ≡ inr x
      → (r : Response) × (Map.get (b.heap i).pending id ≡ some (some r))
        × (r.result ≡ x)
        × (is_empty r.error ≡ true)

pub fails_with :
    (b : Broker) (i : ℕ) (id : Str) (e : CallError) → IsFinish b i id (finish b i id (inl e))
fails_with b i id e = record {
  at = b;
  result = inl e;
  ends = refl;
  pending = λ j. refl;
  slots = refl;
  answer = λ x h. cc;
}

fails_revoked :
    (b : Broker) (i : ℕ) (id : Str)
    → IsFinish b i id (
        finish
          (set_peer b i (close_peer (b.heap i) authorization_revoked))
          i
          id
          (inl agent_revoked))
unfolding set_peer close_peer
fails_revoked b i id = record {
  at = set_peer b i (close_peer (b.heap i) authorization_revoked);
  result = inl agent_revoked;
  ends = refl;
  pending = λ j. ground arith;
  slots = refl;
  answer = λ x h. cc;
}

answers :
    (b : Broker) (i : ℕ) (id : Str) (r : Response)
    → Map.get (b.heap i).pending id ≡ some (some r)
    → IsFinish b i id (finish b i id (outcome r))
unfolding outcome
answers b i id r e = record {
  at = b;
  result = outcome r;
  ends = refl;
  pending = λ j. refl;
  slots = refl;
  answer = λ x h. (r, e, ground arith, ground arith);
}

peer_gone-done :
    (b : Broker) (i : ℕ) (id : Str)
    → (b.heap i).done ≡ true
    → peer_gone b i id ≡ (
        if (b.heap i).close_reason == authorization_revoked
        then finish b i id (inl agent_revoked)
        else finish b i id (inl disconnected))
unfolding peer_gone
peer_gone-done b i id e = ground arith

peer_gone-open :
    (b : Broker) (i : ℕ) (id : Str) → (b.heap i).done ≡ false → peer_gone b i id ≡ (b, waiting i id)
unfolding peer_gone
peer_gone-open b i id e = ground arith

pub waiting_finishes :
    (b : Broker) (i : ℕ) (id : Str) (e : Event) (result : CallError ⊎ Str)
    → (call_step b (waiting i id) e).1 ≡ returned result
    → IsFinish b i id (call_step b (waiting i id) e)
unfolding call_step receive receive_from revalidate
waiting_finishes b i id answered result h = elim (Option-cases (Map.get (b.heap i).pending id)) [
  | inl e ↦ (let k = (rw e at h) in cc)
  | inr (none, e) ↦ (let k = (rw e at h) in cc)
  | inr (some r, e) ↦ rw e (answers b i id r e)
]
waiting_finishes b i id (tick auth allowed) result h = elim (Bool-cases allowed) [
  | inr e ↦ rw e (fails_with b i id caller_revoked)
  | inl e ↦ elim (Bool-cases (peer_authorized auth (b.heap i))) [
    | inr g ↦ rw (e, g) (fails_revoked b i id)
    | inl g ↦ (let k = (rw (e, g) at h) in cc)
  ]
]
waiting_finishes b i id peer_done result h = elim (Bool-cases (b.heap i).done) [
  | inr e ↦ (let k = (rw (peer_gone-open b i id e) at h) in cc)
  | inl e ↦ rw (peer_gone-done b i id e) (
      either (IsFinish b i id) ((b.heap i).close_reason == authorization_revoked)
        (fails_with b i id agent_revoked) (fails_with b i id disconnected))
]
waiting_finishes b i id deadline result h = fails_with b i id timed_out
waiting_finishes b i id slot_free result h = cc
waiting_finishes b i id (new_id x) result h = cc
waiting_finishes b i id (send allowed size written) result h = cc

pub finish_lem :
    (b : Broker) (i : ℕ) (id : Str) (result : CallError ⊎ Str)
    → (Map.get ((finish b i id result).0.heap i).pending id ≡ none)
      × ((finish b i id result).0.slots ≡ b.slots - 1)
      × ((j : ℕ) (other : Str)
          → (j ≢ i) ⊎ (other ≢ id)
          → Map.get ((finish b i id result).0.heap j).pending other
            ≡ Map.get (b.heap j).pending other)
      × ((finish b i id result).1 ≡ returned result)
unfolding finish set_peer
finish_lem b i id result = (
  ground (arith, Map.get-remove_self (b.heap i).pending id),
  refl,
  (λ j other n. ground (arith, Map.get-remove (b.heap i).pending id other, str_beq_iff id other)),
  refl,
)

-- From the new broker on, a result that a waiting call returns is that of a response of the peer
-- that carries the call's own identifier and no error.
pub call_result :
    (observed : Bool) (b : Broker) (i : ℕ) (id : Str) (e : Event) (result : Str)
    → Steps (new_broker observed) b
    → (call_step b (waiting i id) e).1 ≡ returned (inr result)
    → (r : Response) × (Map.get (b.heap i).pending id ≡ some (some r))
      × (r.id ≡ id)
      × (r.result ≡ result)
      × (is_empty r.error ≡ true)
unfolding new_broker Map.get
call_result observed b i id e result s h =
    let f : IsFinish b i id (call_step b (waiting i id) e) =
      waiting_finishes b i id e (inr result) h in
    let k = (rw (f.ends, (finish_lem f.at i id f.result).3) at h) in
    let (r, g, x, n) = f.answer result (returned_inj f.result (inr result) k) in
    (r, g, (Steps-IsKept s).matched i (λ j q e. cc) id r g, x, n)
