-- ===== src/Relay.antt =====
-- internal/relay/broker.go: the Agents that are connected, by device. A peer is an index into the
-- heap, and the goroutines that share it name the same index.
pub mod Call
pub mod Slots
pub mod Steps
pub mod Changes
pub mod CallChanges
pub mod Bearer
pub mod Invariant
pub mod Reply
pub mod Returned
pub mod Revoked
pub mod Accept
pub mod Closing
use chat_with_cli.Base.{
  ℕ, ◌+◌, ◌*◌, Str, List, [], ◌∷◌, ◌++◌, Option, none, some, Bool, true, false, ◌&&◌, ◌||◌, not,
  is_empty, leb, ◌==◌, nat_eq, str_eq, codes, trim_space, if◌then◌else◌,
}
use chat_with_cli.Base.Map
use chat_with_cli.Base.Map.{Map}
use chat_with_cli.Protocol.{valid_device_name, normalize_device_id}

pub record Capabilities : Type 0 where
  pub filesystem_read : Bool
  pub filesystem_write : Bool
  pub exec : Bool
  pub exec_sandbox : Str
  pub screen_read : Bool
  pub accessibility_read : Bool
  pub computer_input : Bool
  pub max_active_tasks : ℕ

pub record Response : Type 0 where
  pub id : Str
  pub result : Str
  pub error : Str

-- A request as far as readLoop looks at it, with what json.Unmarshal makes of its arguments.
pub record Hello : Type 0 where
  pub id : Str
  pub method : Str
  pub capabilities : Option Capabilities

-- A message that has been read: its length, and what json.Unmarshal makes of it.
pub record Frame : Type 0 where
  pub size : ℕ
  pub request : Option Hello
  pub response : Option Response

-- Where the goroutine readLoop of a peer is: in its loop, between its two deferred calls, or gone.
pub data ReadLoop : Type 0 where
  reading leaving stopped : ReadLoop

-- done is the closed channel; replaced says that the acceptAgent of a successor has still to close
-- the peer. A channel of pending is its buffer of one response.
pub record Peer : Type 0 where
  pub device : Str
  pub credential_hash : Str
  pub pending : Map (Option Response)
  pub done : Bool
  pub close_reason : Str
  pub conn_open : Bool
  pub connected_at : ℕ
  pub last_seen : ℕ
  pub capabilities : Option Capabilities
  pub read_loop : ReadLoop
  pub replaced : Bool

-- slots counts the calls in callSlots; traffic lists the calls of the traffic observer.
pub record Broker : Type 0 where
  pub peers : Map ℕ
  pub heap : ℕ → Peer
  pub next : ℕ
  pub slots : ℕ
  pub max_connections : ℕ
  pub observer_set : Bool
  pub traffic : List (Str × ℕ)

-- The callback of SetAgentConnectionAuthorizer, as it answers at the moment of a step.
abbrev pub Authorizer : Type 0
Authorizer = Option (Str → Str → Bool)

unfoldable pub peer_authorized : Authorizer → Peer → Bool
peer_authorized none p = true
peer_authorized (some f) p = f p.device p.credential_hash

unfoldable pub set_peer : Broker → ℕ → Peer → Broker
set_peer b i p = record b { heap = λ j. if j == i then p else b.heap j }

unfoldable pub record_traffic : Broker → Str → ℕ → Broker
record_traffic b device bytes =
    if bytes == 0 || not b.observer_set
    then b
    else record b { traffic = (device, bytes) ∷ b.traffic }

-- (*peer).close: the first reason stays.
unfoldable pub close_peer : Peer → Str → Peer
close_peer p reason =
    if p.done
    then record p { conn_open = false }
    else record p { conn_open = false; done = true; close_reason = reason }

abbrev pub authorization_revoked : Str
authorization_revoked = codes "authorization revoked"

abbrev pub replaced_by_new : Str
replaced_by_new = codes "replaced by a new connection"

abbrev pub session_reset : Str
session_reset = codes "remote session reset"

-- deviceRoute, from the path values "device" and "id"; `none` is the empty string.
unfoldable pub device_route : Str → Str → Option Str
device_route device id =
    if valid_device_name (trim_space device)
    then some (trim_space device)
    else elim (normalize_device_id id) [ none ↦ none | some n ↦ some (codes "id/" ++ n) ]

-- The first critical section of acceptAgent.
unfoldable pub may_connect : Broker → Str → Bool
may_connect b device =
    not (leb b.max_connections (Map.size b.peers) && not (Map.has b.peers device))

unfoldable pub new_peer : Str → Str → ℕ → Peer
new_peer device hash now = record {
  device = device;
  credential_hash = hash;
  pending = Map.empty;
  done = false;
  close_reason = [];
  conn_open = true;
  connected_at = now;
  last_seen = now;
  capabilities = none;
  read_loop = reading;
  replaced = false;
}

-- A peer that has not been made.
abbrev nobody : Peer
unfolding new_peer
nobody = record (new_peer [] [] 0) { done = true; conn_open = false; read_loop = stopped }

-- NewBroker, with or without an observer of the traffic
unfoldable pub new_broker : Bool → Broker
unfolding nobody
new_broker observed = record {
  peers = Map.empty;
  heap = λ i. nobody;
  next = 0;
  slots = 0;
  max_connections = 64;
  observer_set = observed;
  traffic = [];
}

mark_replaced : Broker → Option ℕ → Broker
unfolding set_peer
mark_replaced b none = b
mark_replaced b (some i) = set_peer b i (record (b.heap i) { replaced = true })

-- The second critical section of acceptAgent, which starts the goroutines of the new peer.
register : Broker → Peer → Broker
unfolding mark_replaced set_peer
register b p =
    let c = mark_replaced b (Map.get b.peers p.device) in
    record (set_peer c c.next p) { peers = Map.put c.peers p.device c.next; next = c.next + 1 }

-- acceptAgent after the upgrade of the connection
unfoldable pub connect : Broker → Authorizer → Str → Str → ℕ → Broker
unfolding peer_authorized register new_peer
connect b auth device hash now =
    if peer_authorized auth (new_peer device hash now)
    then register b (new_peer device hash now)
    else b

-- The end of the successor's acceptAgent: old.close.
unfoldable pub close_replaced : Broker → ℕ → Broker
unfolding set_peer close_peer
close_replaced b i =
    set_peer b i (record (close_peer (b.heap i) replaced_by_new) { replaced = false })

replace_old : Broker → Option ℕ → Broker
unfolding close_replaced
replace_old b none = b
replace_old b (some i) = if (b.heap i).replaced then close_replaced b i else b

-- acceptAgent with nothing in between
unfoldable pub accept_agent : Broker → Authorizer → Str → Str → ℕ → Broker
unfolding may_connect connect replace_old
accept_agent b auth device hash now =
    if not (may_connect b device)
    then b
    else replace_old (connect b auth device hash now) (Map.get b.peers device)

deliver : Peer → Response → Peer
deliver p r = elim (Map.get p.pending r.id) [
  | some none ↦ record p { pending = Map.put p.pending r.id (some r) }
  | _ ↦ p
]

is_hello : Hello → Bool
is_hello h = not (is_empty h.id) && h.method == codes "agent_hello"

greet : Peer → Option Capabilities → Peer
greet p none = p
greet p (some c) = record p { capabilities = some c }

answer : Peer → Option Response → Peer
unfolding deliver
answer p none = p
answer p (some r) = if is_empty r.id then p else deliver p r

frame_hello : Frame → Option Hello
unfolding is_hello
frame_hello f =
    if leb f.size (64 * 1024)
    then elim f.request [ none ↦ none | some h ↦ if is_hello h then some h else none ]
    else none

read_message : Broker → ℕ → Peer → Frame → Option Hello → Broker
unfolding set_peer record_traffic greet answer
read_message b i p f (some h) = set_peer b i (greet p h.capabilities)
read_message b i p f none = set_peer (record_traffic b p.device f.size) i (answer p f.response)

-- One round of readLoop with a message.
unfoldable pub read_frame : Broker → ℕ → Frame → ℕ → Broker
unfolding read_message frame_hello
read_frame b i f now = read_message b i (record (b.heap i) { last_seen = now }) f (frame_hello f)

-- The end of readLoop: its first deferred call, then its second, the onClose of acceptAgent.
unfoldable pub read_failed : Broker → ℕ → Broker
unfolding set_peer
read_failed b i = set_peer b i (record (b.heap i) { done = true; read_loop = leaving })

unregister : Broker → ℕ → Option ℕ → Broker
unregister b i none = b
unregister b i (some j) =
    if j == i then record b { peers = Map.remove b.peers (b.heap i).device } else b

unfoldable pub leave : Broker → ℕ → Broker
unfolding set_peer unregister
leave b i =
    set_peer (unregister b i (Map.get b.peers (b.heap i).device)) i
      (record (b.heap i) { read_loop = stopped })

-- A tick of watchPeerAuthorization
unfoldable pub watch_tick : Broker → ℕ → Authorizer → Broker
unfolding set_peer close_peer peer_authorized
watch_tick b i auth =
    if (b.heap i).done || peer_authorized auth (b.heap i)
    then b
    else set_peer b i (close_peer (b.heap i) authorization_revoked)

disconnect_peer : Broker → Option ℕ → Broker
unfolding set_peer close_peer
disconnect_peer b none = b
disconnect_peer b (some i) = set_peer b i (close_peer (b.heap i) session_reset)

unfoldable pub disconnect_device : Broker → Str → Broker
unfolding disconnect_peer
disconnect_device b device = disconnect_peer b (Map.get b.peers device)

-- The status that AgentHandler answers a probe with
probe_peer : Broker → Authorizer → Option ℕ → Broker × ℕ
unfolding set_peer close_peer peer_authorized
probe_peer b auth none = (b, 503)
probe_peer b auth (some i) =
    if not (peer_authorized auth (b.heap i))
    then (set_peer b i (close_peer (b.heap i) authorization_revoked), 401)
    else (b, 204)

unfoldable pub probe : Broker → Authorizer → Str → Broker × ℕ
unfolding probe_peer
probe b auth device = probe_peer b auth (Map.get b.peers device)
