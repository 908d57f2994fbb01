-- ===== src/Relay/Revoked.antt =====
-- The calls of internal/relay/broker.go to an Agent whose authorization is revoked.
use chat_with_cli.Base.{
  ◌<◌, ℕ, Str, true, false, ◌≡◌, inl, refl, arith, nat_eq, str_eq, str_beq_iff,
}
use chat_with_cli.Relay.{
  Broker, Authorizer, peer_authorized, set_peer, close_peer, authorization_revoked,
}
use chat_with_cli.Relay.Call.{
  waiting, returned, peer_done, tick, call_step, finish, revalidate, peer_gone, agent_revoked,
}
use chat_with_cli.Relay.Steps.{Steps}
use chat_with_cli.Relay.Closing.{Steps-closed}

tick_closes :
    (b : Broker) (i : ℕ) (id : Str) (auth : Authorizer)
    → (b.heap i).done ≡ false
    → peer_authorized auth (b.heap i) ≡ false
    → (((call_step b (waiting i id) (tick auth true)).0.heap i).done ≡ true)
      × (((call_step b (waiting i id) (tick auth true)).0.heap i).close_reason
          ≡ authorization_revoked)
      × ((call_step b (waiting i id) (tick auth true)).0.next ≡ b.next)
unfolding call_step revalidate finish set_peer close_peer
tick_closes b i id auth o h = rw h (ground arith, ground arith, refl)

-- When a call of an authorized caller finds at its tick that an open Agent's authorization is
-- revoked, then after any further steps of the broker, every call that waits for this connection
-- and sees it closed returns with that error.
pub revoked_ends :
    (b c : Broker) (i : ℕ) (id other : Str) (auth : Authorizer)
    → i < b.next
    → (b.heap i).done ≡ false
    → peer_authorized auth (b.heap i) ≡ false
    → Steps (call_step b (waiting i id) (tick auth true)).0 c
    → (call_step c (waiting i other) peer_done).1 ≡ returned (inl agent_revoked)
unfolding call_step peer_gone finish
revoked_ends b c i id other auth l o h s =
    let (d, r, n) = tick_closes b i id auth o h in
    let (x, y) = Steps-closed _ c i s (ground (arith, n)) d in
    ground (arith, x, y, r, str_beq_iff (c.heap i).close_reason authorization_revoked)
