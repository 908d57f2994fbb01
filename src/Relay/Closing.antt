-- ===== src/Relay/Closing.antt =====
-- How peers of internal/relay/broker.go are replaced, taken out and closed.
use chat_with_cli.Base.{
  ℕ, ◌<◌, ◌≤◌, Str, true, ◌≡◌, inl, inr, refl, arith, nat_eq, str_eq, Option-cases, Bool-cases,
}
use chat_with_cli.Base.Map
use chat_with_cli.Relay.{
  Broker, Authorizer, peer_authorized, connect, register, mark_replaced, new_peer, leave,
  unregister, set_peer,
}
use chat_with_cli.Relay.Steps.{Step, Steps, IsMatched}
use chat_with_cli.Relay.Invariant.{Step-cases}

-- What a step leaves of a peer that has been made.
pub record IsKept (b c : Broker) : Type 0 where
  pub next : b.next ≤ c.next
  pub closed :
      (i : ℕ)
      → i < b.next
      → (b.heap i).done ≡ true
      → ((c.heap i).done ≡ true) × ((c.heap i).close_reason ≡ (b.heap i).close_reason)
  pub matched : (i : ℕ) → IsMatched (b.heap i) → IsMatched (c.heap i)

register-IsKept :
    (b : Broker) (device hash : Str) (now : ℕ) → IsKept b (register b (new_peer device hash now))
unfolding register new_peer mark_replaced set_peer Map.get
register-IsKept b device hash now = elim (Option-cases (Map.get b.peers device)) [
  | inl e ↦ rw e record {
    next = omega arith;
    closed = λ i l h. ground arith;
    matched = λ i m id r h. ground (arith, m id r);
  }
  | inr (j, e) ↦ rw e record {
    next = omega arith;
    closed = λ i l h. ground arith;
    matched = λ i m id r h. ground (arith, m id r);
  }
]

connect-IsKept :
    (b : Broker) (auth : Authorizer) (device hash : Str) (now : ℕ)
    → IsKept b (connect b auth device hash now)
unfolding connect
connect-IsKept b auth device hash now =
    elim (Bool-cases (peer_authorized auth (new_peer device hash now))) [
      | inl e ↦ rw e (register-IsKept b device hash now)
      | inr e ↦ rw e record { next = omega arith; closed = λ i l h. (h, refl); matched = λ i m. m }
    ]

leave-IsKept : (b : Broker) (i : ℕ) → IsKept b (leave b i)
unfolding leave set_peer unregister
leave-IsKept b i = elim (Option-cases (Map.get b.peers (b.heap i).device)) [
  | inl e ↦ rw e record {
    next = omega arith;
    closed = λ j l h. ground arith;
    matched = λ j m id r h. ground (arith, m id r);
  }
  | inr (j, e) ↦ rw e record {
    next = ground arith;
    closed = λ k l h. ground arith;
    matched = λ k m id r h. ground (arith, m id r);
  }
]

Step-IsKept : {b c : Broker} → Step b c → IsKept b c
Step-IsKept {b} {c} s = elim (Step-cases s) [
  | inl (auth, device, hash, now, e) ↦ rw e (connect-IsKept b auth device hash now)
  | inr (inl (i, h, e)) ↦ rw e (leave-IsKept b i)
  | inr (inr k) ↦ record {
    next = omega (arith, k.next);
    closed = λ i l. (k.update i).closed;
    matched = λ i. (k.update i).matched;
  }
]

pub Steps-IsKept : {b c : Broker} → Steps b c → IsKept b c
Steps-IsKept (Steps.here) = record {
  next = omega arith;
  closed = λ i l h. (h, refl);
  matched = λ i m. m;
}
Steps-IsKept {b} {c} (Steps.then {c = d} s r) =
    let k : IsKept b d = Step-IsKept s in
    let m : IsKept d c = Steps-IsKept r in
    record {
      next = omega (arith, k.next, m.next);
      closed = λ i l h. ground (arith, k.next, k.closed i l h, m.closed i);
      matched = λ i g. m.matched i (k.matched i g);
    }

-- Once a peer is closed it stays closed and keeps the reason it was closed with, whatever steps
-- the goroutines take and in whatever order.
pub Steps-closed :
    (b c : Broker) (i : ℕ)
    → Steps b c
    → i < b.next
    → (b.heap i).done ≡ true
    → ((c.heap i).done ≡ true) × ((c.heap i).close_reason ≡ (b.heap i).close_reason)
Steps-closed b c i r l h = (Steps-IsKept r).closed i l h
