-- ===== src/Relay/Invariant.antt =====
-- What every interleaving of the steps of internal/relay/broker.go keeps.
use chat_with_cli.Base.{
  ℕ, Str, Bool, ◌≡◌, ◌⊎◌, inl, inr, refl, arith, nat_eq, str_beq_iff, str_eq, Option-cases,
}
use chat_with_cli.Base.Map
use chat_with_cli.Base.Map.{Map}
use chat_with_cli.Relay.{
  Broker, new_broker, Peer, Authorizer, reading, leaving, connect, leave, unregister, set_peer,
  new_peer, register, mark_replaced, peer_authorized,
}
use chat_with_cli.Relay.Steps.{Step, Steps, IsBroker, IsChange}
use chat_with_cli.Relay.Changes.{
  either, close_replaced-IsChange, read_frame-IsChange, read_failed-IsChange, watch_tick-IsChange,
  disconnect_device-IsChange, probe-IsChange, start_call-IsChange,
}
use chat_with_cli.Relay.CallChanges.{call_step-IsChange}

leave-IsBroker :
    (b : Broker) (i : ℕ) → (b.heap i).read_loop ≡ leaving → IsBroker b → IsBroker (leave b i)
unfolding leave set_peer unregister
leave-IsBroker b i h w = elim (Option-cases (Map.get b.peers (b.heap i).device)) [
  | inl e ↦ rw e record {
    registered = λ d j k. ground (arith, w.registered d j);
    opened = λ j k. ground (arith, w.opened j);
  }
  | inr (j, e) ↦ rw e record {
    registered = λ d k g. ground (
      arith,
      w.registered d k,
      Map.get-remove b.peers (b.heap i).device d,
      str_beq_iff (b.heap i).device d,
    );
    opened = λ k g. ground (
      arith,
      w.opened k,
      Map.get-remove b.peers (b.heap i).device (b.heap k).device,
      str_beq_iff (b.heap i).device (b.heap k).device,
    );
  }
]

register-IsBroker :
    (b : Broker) (p : Peer) → p.read_loop ≡ reading → IsBroker b → IsBroker (register b p)
unfolding register mark_replaced set_peer
register-IsBroker b p l w = elim (Option-cases (Map.get b.peers p.device)) [
  | inl e ↦ rw e record {
    registered = λ d j k.
        ground
          (arith, w.registered d j, Map.get-put b.peers p.device d b.next, str_beq_iff p.device d);
    opened = λ j k. ground (
      arith,
      w.opened j,
      Map.get-put b.peers p.device p.device b.next,
      Map.get-put b.peers p.device (b.heap j).device b.next,
      str_beq_iff p.device p.device,
      str_beq_iff p.device (b.heap j).device,
    );
  }
  | inr (o, e) ↦ rw e record {
    registered = λ d j k. ground (
      arith,
      w.registered d j,
      w.registered p.device o e,
      Map.get-put b.peers p.device d b.next,
      str_beq_iff p.device d,
    );
    opened = λ j k. ground (
      arith,
      w.opened j,
      w.registered p.device o e,
      Map.get-put b.peers p.device p.device b.next,
      Map.get-put b.peers p.device (b.heap j).device b.next,
      str_beq_iff p.device p.device,
      str_beq_iff p.device (b.heap j).device,
    );
  }
]

IsChange-IsBroker : (b c : Broker) → IsChange b c → IsBroker b → IsBroker c
IsChange-IsBroker b c w v = record {
  registered = λ d i h.
      ground
        (arith, v.registered d i (rw w.peers at h), w.next, (w.update i).device, (w.update i).loop);
  opened = λ i h.
      ground (arith, v.opened i, w.next, w.peers, (w.update i).device, (w.update i).still_open);
}

pub IsChange-refl : (b : Broker) → IsChange b b
IsChange-refl b = record {
  peers = refl;
  next = refl;
  update = λ i. record {
    device = refl;
    loop = inl refl;
    still_open = λ h. (h, refl, refl);
    closed = λ h. (h, refl);
    matched = λ m. m;
  };
}

connect-IsBroker :
    (b : Broker) (auth : Authorizer) (device hash : Str) (now : ℕ)
    → IsBroker b
    → IsBroker (connect b auth device hash now)
unfolding connect new_peer
connect-IsBroker b auth device hash now w =
    either IsBroker (peer_authorized auth (new_peer device hash now))
      (register-IsBroker b (new_peer device hash now) refl w) w

-- A step registers a peer, takes one out, or changes no registration.
pub Step-cases :
    {b c : Broker}
    → Step b c
    → ((auth : Authorizer) × (device : Str) × (hash : Str) × (now : ℕ) × (c
          ≡ connect b auth device hash now))
      ⊎ (((i : ℕ) × ((b.heap i).read_loop ≡ leaving) × (c ≡ leave b i)) ⊎ IsChange b c)
Step-cases (Step.connects auth device hash now) = inl (auth, device, hash, now, refl)
Step-cases (Step.leaves i h) = inr (inl (i, h, refl))
Step-cases {b} (Step.closes i h) = inr (inr (close_replaced-IsChange b b i (IsChange-refl b)))
Step-cases {b} (Step.reads i f now h) =
    inr (inr (read_frame-IsChange b b i f now (IsChange-refl b)))
Step-cases {b} (Step.fails i h) = inr (inr (read_failed-IsChange b b i (IsChange-refl b)))
Step-cases {b} (Step.watches i auth) = inr (inr (watch_tick-IsChange b b i auth (IsChange-refl b)))
Step-cases {b} (Step.resets device) =
    inr (inr (disconnect_device-IsChange b b device (IsChange-refl b)))
Step-cases {b} (Step.probes auth device) =
    inr (inr (probe-IsChange b b auth device (IsChange-refl b)))
Step-cases {b} (Step.calls device auth allowed) =
    inr (inr (start_call-IsChange b b device auth allowed (IsChange-refl b)))
Step-cases {b} (Step.continues k e) = inr (inr (call_step-IsChange b b k e (IsChange-refl b)))

Step-IsBroker : {b c : Broker} → Step b c → IsBroker b → IsBroker c
Step-IsBroker {b} {c} s w = elim (Step-cases s) [
  | inl (auth, device, hash, now, e) ↦ rw e (connect-IsBroker b auth device hash now w)
  | inr (inl (i, h, e)) ↦ rw e (leave-IsBroker b i h w)
  | inr (inr k) ↦ IsChange-IsBroker b c k w
]

Steps-IsBroker : {b c : Broker} → Steps b c → IsBroker b → IsBroker c
Steps-IsBroker (Steps.here) w = w
Steps-IsBroker (Steps.then s r) w = Steps-IsBroker r (Step-IsBroker s w)

-- From the new broker on, whatever steps its goroutines take and in whatever order, every
-- registered peer is one of the device it is registered for, whose goroutine still runs, and every
-- peer that is open is read, and is either the registered one of its device or about to be closed
-- by the connection that replaced it.
pub reachable-IsBroker : (observed : Bool) (b : Broker) → Steps (new_broker observed) b → IsBroker b
unfolding new_broker Map.get
reachable-IsBroker observed b r =
    Steps-IsBroker r record { registered = λ d i h. cc; opened = λ i h. cc }
