-- ===== src/Limits/Address.antt =====
-- Which address a request is counted under: what a client prepends to X-Forwarded-For is of no use.
use chat_with_cli.Base.{
  Str, List, [], ◌∷◌, ◌++◌, Option, none, some, reverse, split, split-append, ◌≡◌, refl, arith,
}
use mathlib.Core.List.{reverse-append}
use chat_with_cli.Limits.{Net, first_untrusted, client_of, request_ip}

module _ (net : Net) where
  or_else : Option net.Ip → Option net.Ip → Option net.Ip
  or_else none o = o
  or_else (some ip) o = some ip

  -- Entries nearer to the server come first.
  first_untrusted-append :
      (trusted : List net.Network) (near far : List Str)
      → first_untrusted net trusted (near ++ far)
        ≡ or_else (first_untrusted net trusted near) (first_untrusted net trusted far)
  unfolding first_untrusted or_else
  first_untrusted-append trusted [] far = refl
  first_untrusted-append trusted (e ∷ near) far =
      ground (arith, first_untrusted-append trusted near far)

  first_untrusted-prepend :
      (trusted : List net.Network) (spoofed appended : Str) (ip : net.Ip)
      → first_untrusted net trusted (reverse (split b',' appended)) ≡ some ip
      → first_untrusted net trusted (reverse (split b',' (spoofed ++ (b',' ∷ appended)))) ≡ some ip
  unfolding or_else
  first_untrusted-prepend trusted spoofed appended ip e = rw (split-append b',' spoofed appended) (
      rw (reverse-append (split b',' spoofed) (split b',' appended)) (
        rw
          (first_untrusted-append trusted (reverse (split b',' appended))
            (reverse (split b',' spoofed)))
          (rw e)))

  -- With an untrusted address among the forwarded ones, the rest does not count.
  client_of_found :
      (trusted : List net.Network) (remote : Option net.Ip) (f g real real' : Str) (ip : net.Ip)
      → first_untrusted net trusted (reverse (split b',' f)) ≡ some ip
      → first_untrusted net trusted (reverse (split b',' g)) ≡ some ip
      → client_of net trusted remote f real ≡ client_of net trusted remote g real'
  unfolding client_of
  client_of_found trusted none f g real real' ip p q = refl
  client_of_found trusted (some remote) f g real real' ip p q = ground (arith, p, q)

  -- If the part of X-Forwarded-For that the proxies appended holds an address outside the trusted
  -- ranges, then whatever the client put before it, the request is counted under the same address.
  pub request_ip-prepend :
      (trusted : List net.Network) (addr spoofed appended real real' : Str) (ip : net.Ip)
      → first_untrusted net trusted (reverse (split b',' appended)) ≡ some ip
      → request_ip net trusted addr (spoofed ++ (b',' ∷ appended)) real
        ≡ request_ip net trusted addr appended real'
  unfolding request_ip
  request_ip-prepend trusted addr spoofed appended real real' ip e =
      client_of_found trusted _ (spoofed ++ (b',' ∷ appended)) appended real real' ip
        (first_untrusted-prepend trusted spoofed appended ip e) e
