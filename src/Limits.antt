-- ===== src/Limits.antt =====
-- internal/oauthserver/limits.go: the request limits by address, and the address of a request
-- behind trusted proxies.
pub mod Rate
pub mod Address
use chat_with_cli.Base.{
  ℕ, ◌+◌, ◌-◌, Str, List, [], ◌∷◌, ◌++◌, Option, none, some, Bool, true, false, ◌||◌, not, ltb, leb,
  ◌==◌, nat_eq, if◌then◌else◌, any, split, trim_space, codes, reverse,
}
use chat_with_cli.Base.Map
use chat_with_cli.Base.Map.{Map}

pub record RateWindow : Type 0 where
  pub started : ℕ
  pub count : ℕ

abbrev pub max_rate_entries : ℕ
max_rate_entries = 8192

-- An hour in nanoseconds.
abbrev pub hour : ℕ
hour = 3600000000000

-- The zero value of a window, whose start is the zero time.
entry_or_zero : Option RateWindow → RateWindow
entry_or_zero none = record { started = 0; count = 0 }
entry_or_zero (some e) = e

-- A missing or expired window starts anew.
unfoldable pub current : RateWindow → ℕ → ℕ → RateWindow
current e now window =
    if e.started == 0 || leb window (now - e.started)
    then record { started = now; count = 0 }
    else e

abbrev pub Rates : Type 0
Rates = Map RateWindow

sweep : Rates → ℕ → Rates
sweep rates now = Map.retain (λ _ e. not (leb hour (now - e.started))) rates

admit : Rates → Str → RateWindow → ℕ → Rates × Bool
admit rates key e limit =
    if leb limit e.count
    then (Map.put rates key e, false)
    else (Map.put rates key (record e { count = e.count + 1 }), true)

count_request : Rates → Str → ℕ → ℕ → ℕ → Rates × Bool
unfolding admit entry_or_zero current
count_request rates key limit window now =
    admit rates key (current (entry_or_zero (Map.get rates key)) now window) limit

-- allowRate for a limit above zero, with the key already joined from the bucket and the address.
unfoldable pub allow_rate : Rates → Str → ℕ → ℕ → ℕ → Rates × Bool
unfolding sweep count_request
allow_rate rates key limit window now =
    if limit == 0
    then (rates, true)
    else if leb max_rate_entries (Map.size rates)
    then (let swept = sweep rates now in
        if leb max_rate_entries (Map.size swept)
        then (swept, false)
        else count_request swept key limit window now)
    else count_request rates key limit window now

-- One call of allowRate: the key is the bucket, a bar and the address of the request.
pub record Request : Type 0 where
  pub key : Str
  pub limit : ℕ
  pub window : ℕ
  pub now : ℕ

unfoldable pub step : Rates → Request → Rates × Bool
unfolding allow_rate
step rates r = allow_rate rates r.key r.limit r.window r.now

unfoldable pub rate_key : Str → Str → Str
rate_key bucket ip = bucket ++ (b'|' ∷ ip)

-- Package net: an address and a network are what it makes of them.
pub record Net : Type 1 where
  pub Ip : Type 0
  pub Network : Type 0
  -- net.SplitHostPort, with the host alone and `none` for an error
  pub split_host : Str → Option Str
  -- net.ParseIP
  pub parse_ip : Str → Option Ip
  -- (net.IP).String
  pub show_ip : Ip → Str
  -- (*net.IPNet).Contains
  pub contains_ip : Network → Ip → Bool

module _ (net : Net) where
  unfoldable pub ip_trusted : net.Ip → List net.Network → Bool
  ip_trusted ip trusted = any (λ n. net.contains_ip n ip) trusted

  -- The loop over X-Forwarded-For, from the entry nearest to the server.
  unfoldable pub first_untrusted : List net.Network → List Str → Option net.Ip
  unfolding ip_trusted
  first_untrusted trusted [] = none
  first_untrusted trusted (entry ∷ rest) =
      let further = first_untrusted trusted rest in
      elim (net.parse_ip (trim_space entry)) [
        | none ↦ further
        | some ip ↦ if ip_trusted ip trusted then further else some ip
      ]

  or_real_ip : List net.Network → net.Ip → Option net.Ip → Option net.Ip → net.Ip
  unfolding ip_trusted
  or_real_ip trusted remote (some ip) real = ip
  or_real_ip trusted remote none none = remote
  or_real_ip trusted remote none (some ip) = if ip_trusted ip trusted then remote else ip

  remote_host : Str → Option Str → Str
  remote_host addr none = addr
  remote_host addr (some host) = host

  client_of : List net.Network → Option net.Ip → Str → Str → Str
  unfolding ip_trusted or_real_ip first_untrusted
  client_of trusted none forwarded real = codes "unknown"
  client_of trusted (some remote) forwarded real =
      if not (ip_trusted remote trusted)
      then net.show_ip remote
      else net.show_ip (
          or_real_ip trusted remote (first_untrusted trusted (reverse (split b',' forwarded)))
            (net.parse_ip (trim_space real)))

  -- requestIP of a request's remote address, X-Forwarded-For and X-Real-IP.
  unfoldable pub request_ip : List net.Network → Str → Str → Str → Str
  unfolding client_of remote_host
  request_ip trusted addr forwarded real =
      client_of trusted
        (net.parse_ip (remote_host (trim_space addr) (net.split_host (trim_space addr)))) forwarded
        real
