-- ===== src/Relay/Accept.antt =====
-- acceptAgent of internal/relay/broker.go: replacement, and the limit of connections.
use chat_with_cli.Base.{
  ℕ, suc, ◌+◌, ◌<◌, ◌≤◌, Str, Option, none, some, is_some, true, false, ◌≡◌, ◌≢◌, inl, inr, refl,
  ap, ◌∙◌, arith, ◌==◌, nat_eq, str_eq, str_beq_iff, Option-cases, Bool-cases, if◌then◌else◌,
}
use chat_with_cli.Base.Map
use chat_with_cli.Relay.{
  Broker, Peer, Authorizer, peer_authorized, connect, register, mark_replaced, new_peer, leave,
  unregister, set_peer, may_connect, close_peer, close_replaced, replace_old, accept_agent,
}
use chat_with_cli.Relay.Steps.{IsBroker}

-- The end of a peer's read loop takes the peer out wherever it is registered, and no other: a
-- connection that has taken its place stays.
pub leave_registered :
    (b : Broker) (i : ℕ)
    → IsBroker b
    → ((d : Str) → Map.get (leave b i).peers d ≢ some i)
      × ((d : Str) (j : ℕ)
          → j ≢ i
          → Map.get b.peers d ≡ some j
          → Map.get (leave b i).peers d ≡ some j)
unfolding leave set_peer unregister
leave_registered b i w = elim (Option-cases (Map.get b.peers (b.heap i).device)) [
  | inl e ↦ rw e ((λ d h. ground (arith, w.registered d i h)), (λ d j n h. h))
  | inr (k, e) ↦ rw e (
    (λ d h. ground (
      arith,
      w.registered d i,
      Map.get-remove b.peers (b.heap i).device d,
      str_beq_iff (b.heap i).device d,
    )),
    (λ d j n h. ground (
      arith,
      w.registered d j h,
      Map.get-remove b.peers (b.heap i).device d,
      str_beq_iff (b.heap i).device d,
    )),
  )
]

register_lem :
    (b : Broker) (p : Peer) (d : Str)
    → ((register b p).heap b.next ≡ p)
      × (Map.get (register b p).peers d
          ≡ (if p.device == d then some b.next else Map.get b.peers d))
      × (Map.size (register b p).peers ≡ (
          if is_some (Map.get b.peers p.device) then Map.size b.peers else suc (Map.size b.peers)))
unfolding register mark_replaced set_peer
register_lem b p d = elim (Option-cases (Map.get b.peers p.device)) [
  | inl e ↦ rw e (
    ground arith,
    Map.get-put b.peers p.device d b.next,
    ground (arith, Map.size-put b.peers p.device b.next),
  )
  | inr (j, e) ↦ rw e (
    ground arith,
    Map.get-put b.peers p.device d b.next,
    ground (arith, Map.size-put b.peers p.device b.next),
  )
]

first_device : (b : Broker) (p : Peer) → Map.get (register b p).peers p.device ≡ some b.next
first_device b p = ground (arith, register_lem b p p.device, str_beq_iff p.device p.device)

other_device :
    (b : Broker) (p : Peer) (d : Str)
    → p.device ≢ d
    → Map.get (register b p).peers d ≡ Map.get b.peers d
other_device b p d n = ground (arith, register_lem b p d, str_beq_iff p.device d)

register_marks :
    (b : Broker) (p : Peer) (j : ℕ)
    → Map.get b.peers p.device ≡ some j
    → j < b.next
    → ((register b p).heap j).replaced ≡ true
unfolding register mark_replaced set_peer
register_marks b p j e l = rw e (ground arith)

close_replaced_lem :
    (b : Broker) (i : ℕ)
    → ((close_replaced b i).peers ≡ b.peers)
      × (((close_replaced b i).heap i).done ≡ true)
      × (((close_replaced b i).heap i).conn_open ≡ false)
      × ((j : ℕ) → j ≢ i → (close_replaced b i).heap j ≡ b.heap j)
unfolding close_replaced close_peer set_peer
close_replaced_lem b i = (refl, ground arith, ground arith, λ j n. ground arith)

accept_agent-replace_old :
    (b : Broker) (auth : Authorizer) (device hash : Str) (now : ℕ)
    → may_connect b device ≡ true
    → peer_authorized auth (new_peer device hash now) ≡ true
    → accept_agent b auth device hash now
      ≡ replace_old (register b (new_peer device hash now)) (Map.get b.peers device)
unfolding accept_agent connect
accept_agent-replace_old b auth device hash now m a = rw (m, a) refl

replace_old-marked :
    (b : Broker) (i : ℕ) → (b.heap i).replaced ≡ true → replace_old b (some i) ≡ close_replaced b i
unfolding replace_old
replace_old-marked b i h = rw h refl

replace_old-peers : (b : Broker) (o : Option ℕ) → (replace_old b o).peers ≡ b.peers
unfolding replace_old close_replaced set_peer
replace_old-peers b none = refl
replace_old-peers b (some i) = ground arith

-- An Agent that the authorizer admits and that the limit lets in is the registered peer of its
-- device from then on and is open; the peer it replaces is closed, and so is its connection; the
-- other devices keep their peers.
pub accept_agent_replaces :
    (b : Broker) (auth : Authorizer) (device hash : Str) (now : ℕ)
    → IsBroker b
    → may_connect b device ≡ true
    → peer_authorized auth (new_peer device hash now) ≡ true
    → (Map.get (accept_agent b auth device hash now).peers device ≡ some b.next)
      × (((accept_agent b auth device hash now).heap b.next).done ≡ false)
      × (((accept_agent b auth device hash now).heap b.next).credential_hash ≡ hash)
      × ((j : ℕ)
          → Map.get b.peers device ≡ some j
          → (((accept_agent b auth device hash now).heap j).done ≡ true)
            × (((accept_agent b auth device hash now).heap j).conn_open ≡ false))
      × ((d : Str)
          → device ≢ d
          → Map.get (accept_agent b auth device hash now).peers d ≡ Map.get b.peers d)
unfolding new_peer replace_old
accept_agent_replaces b auth device hash now w m a =
    let p = new_peer device hash now in
    elim (Option-cases (Map.get b.peers device)) [
      | inl e ↦
          let q = ap (replace_old (register b p)) e in
          rw (accept_agent-replace_old b auth device hash now m a ∙ q) (
            first_device b p,
            ap (λ r. r.done) (register_lem b p device).0,
            ap (λ r. r.credential_hash) (register_lem b p device).0,
            (λ j h. cc),
            (λ d n. other_device b p d n),
          )
      | inr (i, e) ↦
          let l = w.registered device i e in
          let c = close_replaced_lem (register b p) i in
          let q =
            ap (replace_old (register b p)) e
            ∙ replace_old-marked (register b p) i (register_marks b p i e l.0) in
          rw (accept_agent-replace_old b auth device hash now m a ∙ q) (
            rw c.0 (first_device b p),
            rw (c.3 b.next (λ h. omega (arith, l.0, h)))
                (ap (λ r. r.done) (register_lem b p device).0),
            rw (c.3 b.next (λ h. omega (arith, l.0, h)))
                (ap (λ r. r.credential_hash) (register_lem b p device).0),
            (λ j h. ground (arith, c)),
            (λ d n. rw c.0 (other_device b p d n)),
          )
    ]

connect-size :
    (b : Broker) (auth : Authorizer) (device hash : Str) (now : ℕ)
    → Map.size (connect b auth device hash now).peers ≡ (
        if peer_authorized auth (new_peer device hash now)
        then (if is_some (Map.get b.peers device) then Map.size b.peers else suc (Map.size b.peers))
        else Map.size b.peers)
unfolding connect
connect-size b auth device hash now =
    elim (Bool-cases (peer_authorized auth (new_peer device hash now))) [
      | inl e ↦ rw e ((register_lem b (new_peer device hash now) device).2)
      | inr e ↦ rw e refl
    ]

connect-get :
    (b : Broker) (auth : Authorizer) (device hash : Str) (now : ℕ) (d : Str)
    → device ≢ d
    → Map.get (connect b auth device hash now).peers d ≡ Map.get b.peers d
unfolding connect
connect-get b auth device hash now d n =
    elim (Bool-cases (peer_authorized auth (new_peer device hash now))) [
      | inl e ↦ rw e (other_device b (new_peer device hash now) d n)
      | inr e ↦ rw e refl
    ]

-- One acceptAgent after another, the number of registered peers never exceeds the limit.
pub accept_agent_bound :
    (b : Broker) (auth : Authorizer) (device hash : Str) (now : ℕ)
    → Map.size b.peers ≤ b.max_connections
    → Map.size (accept_agent b auth device hash now).peers ≤ b.max_connections
unfolding accept_agent may_connect
accept_agent_bound b auth device hash now l = ground (
  arith,
  replace_old-peers (connect b auth device hash now) (Map.get b.peers device),
  connect-size b auth device hash now,
)

-- Between its two critical sections, an acceptAgent leaves room for another: two Agents of
-- different devices that are both let in at the last free place are both registered, beyond the
-- limit.
pub connect_race :
    (b : Broker) (auth : Authorizer) (one two hash : Str) (now : ℕ)
    → one ≢ two
    → Map.get b.peers one ≡ none
    → Map.get b.peers two ≡ none
    → Map.size b.peers + 1 ≡ b.max_connections
    → peer_authorized auth (new_peer one hash now) ≡ true
    → peer_authorized auth (new_peer two hash now) ≡ true
    → (may_connect b one ≡ true)
      × (may_connect b two ≡ true)
      × (Map.size (connect (connect b auth one hash now) auth two hash now).peers
          ≡ b.max_connections + 1)
unfolding may_connect
connect_race b auth one two hash now n g h l a c = (
  ground arith,
  ground arith,
  ground (
    arith,
    connect-size b auth one hash now,
    connect-size (connect b auth one hash now) auth two hash now,
    connect-get b auth one hash now two n,
  ),
)
