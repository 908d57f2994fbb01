-- ===== src/Relay/Changes.antt =====
-- The steps of internal/relay/broker.go that leave the registered peers as they are, and what they
-- do to a peer.
use chat_with_cli.Base.{
  ℕ, ◌||◌, not, Str, Option, none, some, Bool, true, false, ◌≡◌, inl, inr, refl, ◌∙◌, arith, ◌==◌,
  nat_eq, str_beq_iff, str_eq, Option-cases, Bool-cases, if◌then◌else◌,
}
use chat_with_cli.Base.Map
use chat_with_cli.Base.Map.{Map}
use chat_with_cli.Relay.{
  Broker, Peer, Frame, Response, Capabilities, Authorizer, leaving, close_replaced, read_frame,
  read_message, read_failed, watch_tick, disconnect_device, disconnect_peer, probe, probe_peer,
  set_peer, close_peer, peer_authorized, record_traffic, greet, answer, deliver, frame_hello,
  replaced_by_new, session_reset, authorization_revoked,
}
use chat_with_cli.Relay.Call.{Call, start_call, start_peer}
use chat_with_cli.Relay.Steps.{IsUpdate, IsChange}

pub either : {X : Type 0} {x y : X} (P : X → Type 0) (c : Bool) → P x → P y → P (if c then x else y)
either P true p q = p
either P false p q = q

IsUpdate-trans : (p q r : Peer) → IsUpdate p q → IsUpdate q r → IsUpdate p r
IsUpdate-trans p q r u v = record {
  device = v.device ∙ u.device;
  loop = ground (arith, u.loop, v.loop);
  still_open = λ h. ground (arith, u.still_open, v.still_open);
  closed = λ h. ground (arith, u.closed, v.closed);
  matched = λ m. v.matched (u.matched m);
}

close_peer-IsUpdate : (p : Peer) (reason : Str) → IsUpdate p (close_peer p reason)
unfolding close_peer
close_peer-IsUpdate p reason = record {
  device = ground arith;
  loop = inl (ground arith);
  still_open = λ h. ground arith;
  closed = λ h. ground arith;
  matched = λ m id x h. ground (arith, m id x);
}

answer-IsUpdate : (p : Peer) (r : Option Response) → IsUpdate p (answer p r)
unfolding answer deliver
answer-IsUpdate p none = record {
  device = refl;
  loop = inl refl;
  still_open = λ h. (h, refl, refl);
  closed = λ h. (h, refl);
  matched = λ m. m;
}
answer-IsUpdate p (some r) = record {
  device = ground arith;
  loop = inl (ground arith);
  still_open = λ h. ground arith;
  closed = λ h. ground arith;
  matched = λ m id x h.
      ground (arith, m id x, Map.get-put p.pending r.id id (some r), str_beq_iff r.id id);
}

greet-IsUpdate :
    (p : Peer) (now : ℕ) (c : Option Capabilities)
    → IsUpdate p (greet (record p { last_seen = now }) c)
unfolding greet
greet-IsUpdate p now none = record {
  device = refl;
  loop = inl refl;
  still_open = λ h. (h, refl, refl);
  closed = λ h. (h, refl);
  matched = λ m. m;
}
greet-IsUpdate p now (some c) = record {
  device = refl;
  loop = inl refl;
  still_open = λ h. (h, refl, refl);
  closed = λ h. (h, refl);
  matched = λ m. m;
}

record_traffic-heap : (b : Broker) (d : Str) (n : ℕ) → (record_traffic b d n).heap ≡ b.heap
unfolding record_traffic
record_traffic-heap b d n = ground arith

module _ (a : Broker) where
  pub set_peer-IsChange :
      (b : Broker) (i : ℕ) (q : Peer)
      → IsUpdate (b.heap i) q
      → IsChange a b
      → IsChange a (set_peer b i q)
  unfolding set_peer
  set_peer-IsChange b i q u w = record {
    peers = w.peers;
    next = w.next;
    update = λ j. elim (Bool-cases (j == i)) [
      | inl e ↦
          rw (e, (nat_eq.beq_iff j i).0 e) (IsUpdate-trans (a.heap i) (b.heap i) q (w.update i) u)
      | inr e ↦ rw e (w.update j)
    ];
  }

  pub same-IsChange :
      (b c : Broker)
      → c.peers ≡ b.peers
      → c.heap ≡ b.heap
      → c.next ≡ b.next
      → IsChange a b
      → IsChange a c
  same-IsChange b c p h n w = record {
    peers = p ∙ w.peers;
    next = n ∙ w.next;
    update = λ j. rw h (w.update j);
  }

  pub record_traffic-IsChange :
      (b : Broker) (d : Str) (n : ℕ) → IsChange a b → IsChange a (record_traffic b d n)
  unfolding record_traffic
  record_traffic-IsChange b d n w =
      same-IsChange b (record_traffic b d n) (ground arith) (ground arith) (ground arith) w

  pub read_frame-IsChange :
      (b : Broker) (i : ℕ) (f : Frame) (now : ℕ) → IsChange a b → IsChange a (read_frame b i f now)
  unfolding read_frame read_message
  read_frame-IsChange b i f now w = elim (Option-cases (frame_hello f)) [
    | inl e ↦ rw e (
        let p = record (b.heap i) { last_seen = now } in
        let c = record_traffic b p.device f.size in
        let u = answer-IsUpdate p f.response in
        set_peer-IsChange c i (answer p f.response)
          (rw (record_traffic-heap b p.device f.size) record {
            device = u.device;
            loop = u.loop;
            still_open = u.still_open;
            closed = u.closed;
            matched = u.matched;
          })
          (record_traffic-IsChange b p.device f.size w))
    | inr (h, e) ↦ rw e (
        set_peer-IsChange b i (greet (record (b.heap i) { last_seen = now }) h.capabilities)
          (greet-IsUpdate (b.heap i) now h.capabilities) w)
  ]

  pub close_replaced-IsChange :
      (b : Broker) (i : ℕ) → IsChange a b → IsChange a (close_replaced b i)
  unfolding close_replaced close_peer
  close_replaced-IsChange b i w =
      set_peer-IsChange b i (record (close_peer (b.heap i) replaced_by_new) { replaced = false })
        (record {
          device = ground arith;
          loop = inl (ground arith);
          still_open = λ h. ground arith;
          closed = λ h. ground arith;
          matched = λ m id x h. ground (arith, m id x);
        })
        w

  pub read_failed-IsChange : (b : Broker) (i : ℕ) → IsChange a b → IsChange a (read_failed b i)
  unfolding read_failed
  read_failed-IsChange b i w =
      set_peer-IsChange b i (record (b.heap i) { done = true; read_loop = leaving })
        (record {
          device = refl;
          loop = inr (λ e. cc);
          still_open = λ h. cc;
          closed = λ h. (refl, refl);
          matched = λ m. m;
        })
        w

  pub closing-IsChange :
      (b : Broker) (i : ℕ) (reason : Str)
      → IsChange a b
      → IsChange a (set_peer b i (close_peer (b.heap i) reason))
  closing-IsChange b i reason w =
      set_peer-IsChange b i (close_peer (b.heap i) reason) (close_peer-IsUpdate (b.heap i) reason) w

  pub watch_tick-IsChange :
      (b : Broker) (i : ℕ) (auth : Authorizer) → IsChange a b → IsChange a (watch_tick b i auth)
  unfolding watch_tick
  watch_tick-IsChange b i auth w =
      either (IsChange a) ((b.heap i).done || peer_authorized auth (b.heap i)) w
        (closing-IsChange b i authorization_revoked w)

  pub disconnect_device-IsChange :
      (b : Broker) (device : Str) → IsChange a b → IsChange a (disconnect_device b device)
  unfolding disconnect_device disconnect_peer
  disconnect_device-IsChange b device w = elim (Option-cases (Map.get b.peers device)) [
    | inl e ↦ rw e w
    | inr (i, e) ↦ rw e (closing-IsChange b i session_reset w)
  ]

  pub probe-IsChange :
      (b : Broker) (auth : Authorizer) (device : Str)
      → IsChange a b
      → IsChange a (probe b auth device).0
  unfolding probe probe_peer
  probe-IsChange b auth device w = elim (Option-cases (Map.get b.peers device)) [
    | inl e ↦ rw e w
    | inr (i, e) ↦ rw e (
        either (λ (r : Broker × ℕ). IsChange a r.0) (not (peer_authorized auth (b.heap i)))
          (closing-IsChange b i authorization_revoked w) w)
  ]

  pub start_call-IsChange :
      (b : Broker) (device : Str) (auth : Authorizer) (allowed : Bool)
      → IsChange a b
      → IsChange a (start_call b device auth allowed).0
  unfolding start_call start_peer
  start_call-IsChange b device auth allowed w = elim (Option-cases (Map.get b.peers device)) [
    | inl e ↦ rw e w
    | inr (i, e) ↦ rw e (
        either (λ (r : Broker × Call). IsChange a r.0) (not allowed) w
          (either (λ (r : Broker × Call). IsChange a r.0) (not (peer_authorized auth (b.heap i)))
            (closing-IsChange b i authorization_revoked w) w))
  ]
