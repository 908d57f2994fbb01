-- ===== src/Oauth/Challenge/Replay.antt =====
-- A challenge is consumed once.
use chat_with_cli.Base.{
  ℕ, ◌<◌, ◌≤◌, Str, List, [], ◌∷◌, Option, none, some, Bool, true, false, ◌&&◌, not, leb, ◌≡◌, inl,
  inr, refl, sym, ◌∙◌, arith, All, ◌==◌, str_eq, str_beq_iff, Option-cases, if◌then◌else◌, split,
}
use chat_with_cli.Base.Map
use chat_with_cli.Base.Map.{Map}
use chat_with_cli.Oauth.Platform.{Platform}
use chat_with_cli.Oauth.Challenge.{
  Consumed, purge, available_in, challenge_available, bucket_of, add_consumed, consume_available,
  consume_challenge, validate_challenge, stamp_of, stamp_decoded, stamp_parts, hashed, two_parts,
}

entry_in : Option (Map ℕ) → Str → Option ℕ
entry_in none hash = none
entry_in (some bucket) hash = Map.get bucket hash

-- What the table remembers of a hash for its owner: the expiry.
unfoldable pub entry : Consumed → Str → Str → Option ℕ
unfolding entry_in
entry t owner hash = entry_in (Map.get t owner) hash

get-purge :
    (m : Map ℕ) (now : ℕ) (hash : Str) (e : ℕ)
    → now < e
    → Map.get m hash ≡ some e
    → Map.get (purge m now) hash ≡ some e
unfolding purge
get-purge m now hash e l h = ground (arith, Map.get-retain (λ _ x. not (leb x now)) m hash)

entry-put :
    (t : Consumed) (o owner : Str) (m : Map ℕ) (hash : Str)
    → entry (Map.put t o m) owner hash ≡ (if o == owner then Map.get m hash else entry t owner hash)
unfolding entry entry_in
entry-put t o owner m hash = ground (arith, Map.get-put t o owner m)

entry-owned :
    (t : Consumed) (owner hash : Str) (m : Map ℕ)
    → Map.get t owner ≡ some m
    → entry t owner hash ≡ Map.get m hash
unfolding entry entry_in
entry-owned t owner hash m e = ground arith

entry-bucket_of :
    (t : Consumed) (owner hash : Str)
    → entry t owner hash ≡ Map.get (bucket_of (Map.get t owner)) hash
unfolding entry entry_in bucket_of Map.get
entry-bucket_of t owner hash = ground arith

-- The first half keeps what has not expired, and finds what is there.
available_kept :
    (t : Consumed) (owner hash : Str) (expires : ℕ) (o h : Str) (now : ℕ)
    → now < expires
    → entry t owner hash ≡ some expires
    → entry (challenge_available t o h now).0 owner hash ≡ some expires
unfolding challenge_available available_in
available_kept t owner hash expires o h now l c = elim (Option-cases (Map.get t o)) [
  | inl e ↦ rw e c
  | inr (m, e) ↦ rw e (
      ground (
        arith,
        entry-put t o owner (purge m now) hash,
        entry-owned t o hash m e,
        get-purge m now hash expires l,
        str_beq_iff o owner,
      ))
]

available_refused :
    (t : Consumed) (owner hash : Str) (expires now : ℕ)
    → now < expires
    → entry t owner hash ≡ some expires
    → (challenge_available t owner hash now).1 ≡ false
unfolding challenge_available available_in entry entry_in
available_refused t owner hash expires now l c = elim (Option-cases (Map.get t owner)) [
  | inl e ↦ (let k = (rw e at c) in cc)
  | inr (m, e) ↦ rw e (ground (arith, entry-owned t owner hash m e, get-purge m now hash expires l))
]

added :
    (t : Consumed) (o h : Str) (e : ℕ) (owner hash : Str)
    → entry (add_consumed t o h e) owner hash
      ≡ (if o == owner && h == hash then some e else entry t owner hash)
unfolding add_consumed
added t o h e owner hash = ground (
  arith,
  entry-put t o owner (Map.put (bucket_of (Map.get t o)) h e) hash,
  Map.get-put (bucket_of (Map.get t o)) h hash e,
  entry-bucket_of t o hash,
  str_beq_iff o owner,
)

consume_available-kept :
    (s : Consumed × Bool) (o h : Str) (e : ℕ) (owner hash : Str) (expires : ℕ)
    → entry s.0 owner hash ≡ some expires
    → ((o ≡ owner) × (h ≡ hash) → s.1 ≡ false)
    → entry (consume_available s o h e).0 owner hash ≡ some expires
unfolding consume_available
consume_available-kept (t, false) o h e owner hash expires c n = c
consume_available-kept (t, true) o h e owner hash expires c n =
    ground (arith, added t o h e owner hash, str_beq_iff o owner, str_beq_iff h hash)

consume_available-adds :
    (s : Consumed × Bool) (o h : Str) (e : ℕ)
    → (consume_available s o h e).1 ≡ true
    → entry (consume_available s o h e).0 o h ≡ some e
unfolding consume_available
consume_available-adds (t, false) o h e c = cc
consume_available-adds (t, true) o h e c =
    ground (arith, added t o h e o h, str_beq_iff o o, str_beq_iff h h)

consume_challenge-kept :
    (t : Consumed) (owner hash : Str) (expires : ℕ) (o h : Str) (e now : ℕ)
    → now < expires
    → entry t owner hash ≡ some expires
    → entry (consume_challenge t o h e now).0 owner hash ≡ some expires
unfolding consume_challenge
consume_challenge-kept t owner hash expires o h e now l c =
    consume_available-kept (challenge_available t o h now) o h e owner hash expires
      (available_kept t owner hash expires o h now l c)
      (λ (p, q). rw (p, q) (available_refused t owner hash expires now l c))

-- One consumption.
pub record Consumption : Type 0 where
  pub owner : Str
  pub hash : Str
  pub expires : ℕ
  pub now : ℕ

unfoldable pub consume_all : Consumed → List Consumption → Consumed
consume_all t [] = t
consume_all t (r ∷ rs) = consume_all (consume_challenge t r.owner r.hash r.expires r.now).0 rs

consume_all-kept :
    (t : Consumed) (owner hash : Str) (expires : ℕ) (rs : List Consumption)
    → All (λ r. r.now < expires) rs
    → entry t owner hash ≡ some expires
    → entry (consume_all t rs) owner hash ≡ some expires
unfolding consume_all
consume_all-kept t owner hash expires [] l c = c
consume_all-kept t owner hash expires (r ∷ rs) (l, ls) c =
    consume_all-kept (consume_challenge t r.owner r.hash r.expires r.now).0 owner hash expires rs ls
      (consume_challenge-kept t owner hash expires r.owner r.hash r.expires r.now l c)

refused_again :
    (s : Consumed × Bool) (o h : Str) (e : ℕ) → s.1 ≡ false → (consume_available s o h e).1 ≡ false
unfolding consume_available
refused_again (t, false) o h e c = refl
refused_again (t, true) o h e c = cc

module _ (lib : Platform) (mac : Str → Str) (lifetime : ℕ) where
  stamp_of_same :
      (payload provided : Str) (now later e g : ℕ)
      → stamp_of lib mac lifetime payload provided now ≡ some e
      → stamp_of lib mac lifetime payload provided later ≡ some g
      → (g ≡ e) × (later < e)
  unfolding stamp_of
  stamp_of_same payload provided now later e g h k = ground arith

  stamp_decoded_same :
      (payload provided : Option Str) (now later e g : ℕ)
      → stamp_decoded lib mac lifetime payload provided now ≡ some e
      → stamp_decoded lib mac lifetime payload provided later ≡ some g
      → (g ≡ e) × (later < e)
  unfolding stamp_decoded
  stamp_decoded_same none provided now later e g h k = cc
  stamp_decoded_same (some payload) none now later e g h k = cc
  stamp_decoded_same (some payload) (some provided) now later e g h k =
      stamp_of_same payload provided now later e g h k

  stamp_parts_same :
      (parts : Option (Str × Str)) (now later e g : ℕ)
      → stamp_parts lib mac lifetime parts now ≡ some e
      → stamp_parts lib mac lifetime parts later ≡ some g
      → (g ≡ e) × (later < e)
  unfolding stamp_parts
  stamp_parts_same none now later e g h k = cc
  stamp_parts_same (some (a, b)) now later e g h k =
      stamp_decoded_same (lib.base64_decode a) (lib.base64_decode b) now later e g h k

  hashed_same :
      (challenge : Str) (o : Option ℕ) (hash : Str) (e : ℕ)
      → hashed lib mac lifetime challenge o ≡ some (hash, e)
      → (o ≡ some e) × (hash ≡ lib.sha256_hex challenge)
  unfolding hashed
  hashed_same challenge none hash e h = cc
  hashed_same challenge (some g) hash e h = ground arith

  -- A challenge that is valid gives the same hash and expiry whenever it is, and is so only before
  -- that.
  validate_challenge_same :
      (challenge : Str) (now later : ℕ) (hash other : Str) (e g : ℕ)
      → validate_challenge lib mac lifetime challenge now ≡ some (hash, e)
      → validate_challenge lib mac lifetime challenge later ≡ some (other, g)
      → (other ≡ hash) × (g ≡ e) × (later < e)
  unfolding validate_challenge
  validate_challenge_same challenge now later hash other e g h k =
      let p = two_parts (split b'.' challenge) in
      let (a, b) = hashed_same challenge (stamp_parts lib mac lifetime p now) hash e h in
      let (c, d) = hashed_same challenge (stamp_parts lib mac lifetime p later) other g k in
      let (x, y) = stamp_parts_same p now later e g a c in (d ∙ sym b, x, y)

  before :
      (rs : List Consumption) (later e : ℕ)
      → later < e
      → All (λ r. r.now ≤ later) rs
      → All (λ r. r.now < e) rs
  before [] later e l h = tt
  before (r ∷ rs) later e l (h, hs) = (omega (arith, h, l), before rs later e l hs)

  -- A challenge that has been validated and consumed is never consumed again by its owner: whatever
  -- is consumed meanwhile, as long as the clock does not run back, it is either not valid any more
  -- or refused.
  pub challenge_once :
      (t : Consumed) (owner challenge hash other : Str) (e g now later : ℕ) (rs : List Consumption)
      → validate_challenge lib mac lifetime challenge now ≡ some (hash, e)
      → (consume_challenge t owner hash e now).1 ≡ true
      → All (λ r. r.now ≤ later) rs
      → validate_challenge lib mac lifetime challenge later ≡ some (other, g)
      → (consume_challenge
          (consume_all (consume_challenge t owner hash e now).0 rs)
          owner
          other
          g
          later).1
        ≡ false
  unfolding consume_challenge
  challenge_once t owner challenge hash other e g now later rs v h b k =
      let (p, q, l) = validate_challenge_same challenge now later hash other e g v k in
      let s = (consume_challenge t owner hash e now).0 in
      let kept =
        consume_all-kept s owner hash e rs (before rs later e l b)
          (consume_available-adds (challenge_available t owner hash now) owner hash e h) in
      rw p (
        refused_again (challenge_available (consume_all s rs) owner hash later) owner hash g
          (available_refused (consume_all s rs) owner hash e later l kept))
