-- ===== src/Relay/Bearer.antt =====
-- internal/relay/broker.go: the bearer token of a request, the gate of the legacy Agent handler,
-- and the status of the devices.
use chat_with_cli.Base.{
  ℕ, zero, suc, Str, [], ◌∷◌, Option, none, some, Bool, true, false, ◌||◌, not, is_empty, length,
  leb, ◌==◌, nat_eq, str_eq, codes, trim_space, if◌then◌else◌, ◌≡◌, ◌≢◌, arith, str_beq_iff,
}
use chat_with_cli.Base.Map
use chat_with_cli.Oauth.Platform.{Platform}
use chat_with_cli.Protocol.{valid_device_name}
use chat_with_cli.Relay.{Broker, Peer, Capabilities}

pub record DeviceStatus : Type 0 where
  pub device : Str
  pub online : Bool
  pub connected_at : ℕ
  pub last_seen : ℕ
  pub in_flight : ℕ
  pub capabilities : Option Capabilities

status_of : Str → Peer → DeviceStatus
status_of name p = record {
  device = name;
  online = true;
  connected_at = p.connected_at;
  last_seen = p.last_seen;
  in_flight = Map.size p.pending;
  capabilities = p.capabilities;
}

-- The entry of a device in the result of DeviceStatuses
unfoldable pub device_status : Broker → Str → Option DeviceStatus
unfolding status_of
device_status b name = elim (Map.get b.peers name) [
  | none ↦ none
  | some i ↦ some (status_of name (b.heap i))
]

-- header[:7] and header[7:]
first_seven : ℕ → Str → Str
first_seven zero s = []
first_seven (suc n) [] = []
first_seven (suc n) (c ∷ s) = c ∷ first_seven n s

after_seven : ℕ → Str → Str
after_seven zero s = s
after_seven (suc n) [] = []
after_seven (suc n) (c ∷ s) = after_seven n s

module _ (lib : Platform) where
  unfoldable pub bearer_token : Str → Str
  unfolding first_seven after_seven
  bearer_token header =
      if leb (length header) 7 || not (lib.equal_fold (first_seven 7 header) (codes "Bearer "))
      then []
      else trim_space (after_seven 7 header)

  unfoldable pub token_fingerprint : Str → Str
  token_fingerprint token = lib.sha256_hex token

  unfoldable pub valid_bearer : Str → Str → Bool
  unfolding bearer_token
  valid_bearer header expected =
      if is_empty expected
      then false
      else if not (length (bearer_token header) == length expected)
      then false
      else bearer_token header == expected

  -- The status that LegacyAgentHandler refuses a request with, or the device that it accepts.
  unfoldable pub legacy_agent : Str → Str → Str → Option ℕ × Option Str
  unfolding valid_bearer
  legacy_agent agent_token header device =
      if not (valid_bearer header agent_token)
      then (some 401, none)
      else if not (valid_device_name (trim_space device))
      then (some 400, none)
      else (none, some (trim_space device))

  -- The legacy handler accepts an Agent only under a token that has been set and that is the one
  -- the request bears, and only for a valid device name.
  pub legacy_agent_accepts :
      (agent_token header device name : Str)
      → (legacy_agent agent_token header device).1 ≡ some name
      → (agent_token ≢ []) × (bearer_token header ≡ agent_token) × (valid_device_name name ≡ true)
  unfolding legacy_agent valid_bearer
  legacy_agent_accepts agent_token header device name h = (
    (λ e. ground arith),
    ground (arith, str_beq_iff (bearer_token header) agent_token),
    ground arith,
  )
