-- ===== src/Relay/Steps.antt =====
-- The atomic steps of the goroutines of internal/relay/broker.go, in any order, and the invariant
-- that they keep.
use chat_with_cli.Base.{ℕ, ◌<◌, Str, some, Bool, true, false, ◌≡◌, ◌≢◌, ◌⊎◌, nat_eq}
use chat_with_cli.Base.Map
use chat_with_cli.Relay.{
  Broker, Peer, Response, Frame, Authorizer, reading, leaving, stopped, connect, close_replaced,
  read_frame, read_failed, leave, watch_tick, disconnect_device, probe,
}
use chat_with_cli.Relay.Call.{Call, Event, call_step, start_call}

-- acceptAgent registers a peer; the peer that it replaces is closed by a later step.
pub data Step : Broker → Broker → Type 0 where
  connects :
      {b : Broker}
      → (auth : Authorizer) (device hash : Str) (now : ℕ) → Step b (connect b auth device hash now)
  closes : {b : Broker} → (i : ℕ) → (b.heap i).replaced ≡ true → Step b (close_replaced b i)
  reads :
      {b : Broker}
      → (i : ℕ) (f : Frame) (now : ℕ) → (b.heap i).read_loop ≡ reading
      → Step b (read_frame b i f now)
  fails : {b : Broker} → (i : ℕ) → (b.heap i).read_loop ≡ reading → Step b (read_failed b i)
  leaves : {b : Broker} → (i : ℕ) → (b.heap i).read_loop ≡ leaving → Step b (leave b i)
  watches : {b : Broker} → (i : ℕ) (auth : Authorizer) → Step b (watch_tick b i auth)
  resets : {b : Broker} → (device : Str) → Step b (disconnect_device b device)
  probes : {b : Broker} → (auth : Authorizer) (device : Str) → Step b (probe b auth device).0
  calls :
      {b : Broker}
      → (device : Str) (auth : Authorizer) (allowed : Bool)
      → Step b (start_call b device auth allowed).0
  continues : {b : Broker} → (c : Call) (e : Event) → Step b (call_step b c e).0

pub data Steps : Broker → Broker → Type 0 where
  here : {b : Broker} → Steps b b
  then : {b c d : Broker} → Step b c → Steps c d → Steps b d

-- Every registered peer is one of its device whose goroutine still runs, and every open peer is
-- read, and is the registered one of its device or about to be closed by its successor.
pub record IsBroker (b : Broker) : Type 0 where
  pub registered :
      (d : Str) (i : ℕ)
      → Map.get b.peers d ≡ some i
      → (i < b.next) × ((b.heap i).device ≡ d) × ((b.heap i).read_loop ≢ stopped)
  pub opened :
      (i : ℕ)
      → (b.heap i).done ≡ false
      → (i < b.next)
        × ((b.heap i).read_loop ≡ reading)
        × ((Map.get b.peers (b.heap i).device ≡ some i) ⊎ ((b.heap i).replaced ≡ true))

-- A channel of pending holds a response to its own request.
abbrev pub IsMatched : Peer → Type 0
IsMatched p = (id : Str) (r : Response) → Map.get p.pending id ≡ some (some r) → r.id ≡ id

-- A peer of the same device, with the same reason if it is closed, in the place of another that
-- opens nothing, and that leaves its loop and its mark of replacement as they are while it is open.
pub record IsUpdate (p q : Peer) : Type 0 where
  pub device : q.device ≡ p.device
  pub loop : (q.read_loop ≡ p.read_loop) ⊎ (q.read_loop ≢ stopped)
  pub still_open :
      q.done ≡ false → (p.done ≡ false) × (q.read_loop ≡ p.read_loop) × (q.replaced ≡ p.replaced)
  pub closed : p.done ≡ true → (q.done ≡ true) × (q.close_reason ≡ p.close_reason)
  pub matched : IsMatched p → IsMatched q

-- The peers are registered as before, and each is at most updated.
pub record IsChange (b c : Broker) : Type 0 where
  pub peers : c.peers ≡ b.peers
  pub next : c.next ≡ b.next
  pub update : (i : ℕ) → IsUpdate (b.heap i) (c.heap i)
