-- ===== src/Tests/Challenges.antt =====
-- A challenge that is answered twice.
use chat_with_cli.Base.{Str, List, [], ◌∷◌, ◌++◌, some, true, false, codes, ◌≡◌, refl, arith}
use chat_with_cli.Base.Map
use chat_with_cli.Oauth.Platform.{Platform}
use chat_with_cli.Oauth.Challenge.{
  Consumed, validate_challenge, consume_challenge, challenge_available, available_in,
  consume_available, add_consumed, purge,
}
use chat_with_cli.Oauth.Challenge.Replay.{Consumption, consume_all, challenge_once}
use chat_with_cli.Tests.Fixture.{platform, strings_run, maps_run}

unfoldable challenges_run : Unit {0}
unfolding strings_run maps_run validate_challenge consume_challenge challenge_available available_in
    consume_available add_consumed purge
challenges_run = tt

-- A payload that expires at 9.
abbrev payload : Str
payload = codes "012345678901234567890123" ++ (0 ∷ 0 ∷ 0 ∷ 0 ∷ 0 ∷ 0 ∷ 0 ∷ 9 ∷ [])

-- Every text decodes to the payload, which authenticates itself.
abbrev decoder : Platform
decoder = record platform { base64_decode = λ t. some payload }

abbrev sign : Str → Str
sign p = p

abbrev challenge : Str
challenge = codes "a.b"

abbrev owner : Str
owner = codes "d"

abbrev fresh : Consumed
fresh = Map.empty

abbrev meanwhile : List Consumption
meanwhile = record { owner = owner; hash = codes "other"; expires = 20; now = 4 } ∷ []

valid_at_3 : validate_challenge decoder sign 60 challenge 3 ≡ some (challenge, 9)
unfolding challenges_run
valid_at_3 = refl

valid_at_5 : validate_challenge decoder sign 60 challenge 5 ≡ some (challenge, 9)
unfolding challenges_run
valid_at_5 = refl

first_use : (consume_challenge fresh owner challenge 9 3).1 ≡ true
unfolding challenges_run
first_use = refl

challenge_once_example :
    (consume_challenge
      (consume_all (consume_challenge fresh owner challenge 9 3).0 meanwhile)
      owner
      challenge
      9
      5).1
    ≡ false
challenge_once_example =
    challenge_once decoder sign 60 fresh owner challenge challenge challenge 9 9 3 5 meanwhile
      valid_at_3 first_use (omega arith, tt) valid_at_5
