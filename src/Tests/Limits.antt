-- ===== src/Tests/Limits.antt =====
-- Rate limits and forwarded addresses at concrete requests.
use chat_with_cli.Base.{
  ℕ, ◌+◌, ◌-◌, ◌<◌, ◌≤◌, [], ◌∷◌, ◌++◌, List, none, some, codes, nat_eq, ◌≡◌, refl, reverse, split,
  arith, ltb,
}
use chat_with_cli.Limits.{Rates, Request, Net, first_untrusted, ip_trusted, request_ip, step}
use chat_with_cli.Limits.Rate.{Within, InWindow, admitted, admitted-le}
use chat_with_cli.Limits.Address.{request_ip-prepend}
use chat_with_cli.Tests.Fixture.{single, strings_run, maps_run}

-- Addresses are digits; those below 5 are trusted.
abbrev net : Net
net = record {
  Ip = ℕ;
  Network = ℕ;
  split_host = λ s. some s;
  parse_ip = λ s. elim s [ [] ↦ none | c ∷ r ↦ some (c) ];
  show_ip = λ ip. ip ∷ [];
  contains_ip = λ bound ip. ltb ip bound;
}

near_proxy : first_untrusted net (b'5' ∷ []) (reverse (split b',' (codes "7,2"))) ≡ some b'7'
unfolding first_untrusted ip_trusted strings_run
near_proxy = refl

request_ip-prepend_example :
    request_ip net (b'5' ∷ []) (codes "1") (codes "9" ++ (b',' ∷ codes "7,2")) (codes "8")
    ≡ request_ip net (b'5' ∷ []) (codes "1") (codes "7,2") []
request_ip-prepend_example =
    request_ip-prepend net (b'5' ∷ []) (codes "1") (codes "9") (codes "7,2") (codes "8") [] b'7'
      near_proxy

abbrev request : ℕ → Request
request t = record { key = codes "t|1"; limit = 3; window = 60; now = t }

abbrev opened : Rates
opened = single (codes "t|1") (record { started = 100; count = 1 })

opened_window : InWindow opened (codes "t|1") 100 1
unfolding maps_run strings_run
opened_window = refl

abbrev burst : List Request
burst = request 101 ∷ request 102 ∷ request 103 ∷ []

burst_run : admitted (codes "t|1") opened burst ≡ 2
unfolding admitted step maps_run strings_run
burst_run = refl

within : (t : ℕ) → t - 100 < 60 → Within (codes "t|1") 3 60 100 (request t)
within t h = record { early = h; same = λ e. (refl, refl) }

admitted-le_example : 1 + admitted (codes "t|1") opened burst ≤ 3
admitted-le_example =
    admitted-le (codes "t|1") 3 60 100 opened 1 burst (omega arith) (omega arith) (omega arith)
      (omega arith) opened_window
      (within 101 (omega arith), (within 102 (omega arith), (within 103 (omega arith), tt)))
