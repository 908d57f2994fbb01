-- ===== src/Oauth/Challenge.antt =====
-- The challenges of internal/oauthserver/server.go: their validation, and the tables of those that
-- have been consumed. The message authentication of a payload is a parameter, and a time is a
-- number of seconds.
pub mod Replay
use chat_with_cli.Base.{
  ℕ, zero, suc, ◌+◌, ◌*◌, ◌^◌, Str, List, [], ◌∷◌, Option, none, some, Bool, true, false, ◌||◌,
  ◌&&◌, not, length, ltb, leb, ◌==◌, nat_eq, str_eq, split, if◌then◌else◌,
}
use chat_with_cli.Base.Map
use chat_with_cli.Base.Map.{Map}
use chat_with_cli.Oauth.Platform.{Platform}

-- By device or client, the hashes of the consumed challenges with their expiry.
abbrev pub Consumed : Type 0
Consumed = Map (Map ℕ)

-- maxRegistrationChallengesConsumedDevice and the two that equal it
abbrev pub max_consumed : ℕ
max_consumed = 64

unfoldable pub purge : Map ℕ → ℕ → Map ℕ
purge bucket now = Map.retain (λ _ expiry. not (leb expiry now)) bucket

unfoldable pub available_in : Consumed → Str → Str → ℕ → Option (Map ℕ) → Consumed × Bool
unfolding purge
available_in t owner hash now none = (t, true)
available_in t owner hash now (some bucket) =
    let left = purge bucket now in
    (Map.put t owner left, not (Map.has left hash) && ltb (Map.size left) max_consumed)

-- registrationChallengeAvailableLocked and authorizationChallengeAvailableLocked
unfoldable pub challenge_available : Consumed → Str → Str → ℕ → Consumed × Bool
unfolding available_in
challenge_available t owner hash now = available_in t owner hash now (Map.get t owner)

bucket_of : Option (Map ℕ) → Map ℕ
bucket_of none = Map.empty
bucket_of (some bucket) = bucket

unfoldable pub add_consumed : Consumed → Str → Str → ℕ → Consumed
unfolding bucket_of
add_consumed t owner hash expires =
    Map.put t owner (Map.put (bucket_of (Map.get t owner)) hash expires)

unfoldable pub consume_available : Consumed × Bool → Str → Str → ℕ → Consumed × Bool
unfolding add_consumed
consume_available (t, false) owner hash expires = (t, false)
consume_available (t, true) owner hash expires = (add_consumed t owner hash expires, true)

-- consumeRegistrationChallengeLocked and consumeAuthorizationChallengeLocked
unfoldable pub consume_challenge : Consumed → Str → Str → ℕ → ℕ → Consumed × Bool
unfolding challenge_available consume_available
consume_challenge t owner hash expires now =
    consume_available (challenge_available t owner hash now) owner hash expires

-- consumeAgentChallengeLocked
unfoldable pub consume_agent_challenge : Consumed → Str → Str → ℕ → ℕ → Consumed × Bool
unfolding purge bucket_of
consume_agent_challenge t device hash expires now =
    let left = purge (bucket_of (Map.get t device)) now in
    if Map.has left hash || leb max_consumed (Map.size left)
    then (Map.put t device left, false)
    else (Map.put t device (Map.put left hash expires), true)

skip : ℕ → Str → Str
skip zero s = s
skip (suc n) [] = []
skip (suc n) (c ∷ s) = skip n s

big_endian : ℕ → Str → ℕ
big_endian acc [] = acc
big_endian acc (c ∷ s) = big_endian (acc * 256 + c) s

two_parts : List Str → Option (Str × Str)
two_parts [] = none
two_parts (a ∷ []) = none
two_parts (a ∷ b ∷ []) = some (a, b)
two_parts (a ∷ b ∷ c ∷ s) = none

module _ (lib : Platform) (mac : Str → Str) (lifetime : ℕ) where
  -- The stamp in a payload, if the payload is authentic and the stamp lies ahead, but not too far.
  -- An int64 from 2 ^ 63 on is negative, and so not after now.
  stamp_of : Str → Str → ℕ → Option ℕ
  unfolding skip big_endian
  stamp_of payload provided now =
      let expires = big_endian 0 (skip 24 payload) in
      if not (length payload == 32) || not (length provided == 32) || not (provided == mac payload)
      then none
      else if leb (2 ^ 63) expires || leb expires now || ltb (now + lifetime + 5) expires
      then none
      else some expires

  stamp_decoded : Option Str → Option Str → ℕ → Option ℕ
  unfolding stamp_of
  stamp_decoded none provided now = none
  stamp_decoded (some payload) none now = none
  stamp_decoded (some payload) (some provided) now = stamp_of payload provided now

  stamp_parts : Option (Str × Str) → ℕ → Option ℕ
  unfolding stamp_decoded
  stamp_parts none now = none
  stamp_parts (some (a, b)) now = stamp_decoded (lib.base64_decode a) (lib.base64_decode b) now

  hashed : Str → Option ℕ → Option (Str × ℕ)
  hashed challenge none = none
  hashed challenge (some expires) = some (lib.sha256_hex challenge, expires)

  -- validateRegistrationChallenge, validateAuthorizationChallenge and validateAgentChallenge, which
  -- differ in the message authentication and the lifetime.
  unfoldable pub validate_challenge : Str → ℕ → Option (Str × ℕ)
  unfolding stamp_parts two_parts hashed
  validate_challenge challenge now =
      hashed challenge (stamp_parts (two_parts (split b'.' challenge)) now)
