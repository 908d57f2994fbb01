-- ===== src/Tests/Config.antt =====
-- Runs of the configuration files of internal/config/config.go. Quoting puts a backslash before a
-- quote and a backslash.
use chat_with_cli.Base.{
  ℕ, Str, List, [], ◌∷◌, ◌++◌, Option, none, some, Bool, true, false, codes, ◌≡◌, refl, inl, inr,
  ap, ◌||◌, ◌==◌, nat_eq, str_eq, arith, Bool-cases, if◌then◌else◌,
}
use chat_with_cli.Base.Map
use chat_with_cli.Config.{
  Strconv, load_from, section_key, Values, string_value, sort_strings, strip_comment,
}
use chat_with_cli.Config.Lines.{Literal, closed, plain, escape, is_key_byte}
use chat_with_cli.Config.Reading.{IsQuoted, AllKeys, last_value, lines_of, load_from-pairs}
use chat_with_cli.Config.Sorting.{IsRising, count, sort_strings_sorted}

is_special : ℕ → Bool
is_special c = c == b'"' || c == 92

escaped : Str → Str
unfolding is_special
escaped [] = []
escaped (c ∷ s) = let rest = escaped s in if is_special c then 92 ∷ c ∷ rest else c ∷ rest

-- The text of a literal whose closing quote comes last.
plain_of : Str → Str
plain_of [] = []
plain_of (c ∷ []) = []
plain_of (c ∷ d ∷ s) =
    let pair = plain_of s in let rest = plain_of (d ∷ s) in if c == 92 then d ∷ pair else c ∷ rest

abbrev unquoted : Str → Option Str
unquoted [] = none
unquoted (c ∷ s) = some (plain_of s)

abbrev conv : Strconv
conv = record {
  quote = λ s. b'"' ∷ (escaped s ++ (b'"' ∷ []));
  unquote = unquoted;
  format_bool = λ b. if b then codes "true" else codes "false";
  parse_bool = λ s. if s == codes "true" then some true else none;
  itoa = λ n. codes "0";
}

escaped-Literal : (s : Str) → Literal (escaped s)
unfolding escaped is_special
escaped-Literal [] = closed
escaped-Literal (c ∷ s) = elim (Bool-cases (is_special c)) [
  | inl e ↦ rw e (escape (escaped-Literal s))
  | inr e ↦ rw e (plain (ground arith) (ground arith) (escaped-Literal s))
]

plain_of-cons :
    (c : ℕ) (s : Str)
    → (c == 92) ≡ false
    → plain_of (c ∷ (s ++ (b'"' ∷ []))) ≡ c ∷ plain_of (s ++ (b'"' ∷ []))
unfolding plain_of
plain_of-cons c [] h = rw h refl
plain_of-cons c (d ∷ s) h = rw h refl

plain_of-escaped : (s : Str) → plain_of (escaped s ++ (b'"' ∷ [])) ≡ s
unfolding plain_of escaped is_special
plain_of-escaped [] = refl
plain_of-escaped (c ∷ s) = elim (Bool-cases (is_special c)) [
  | inl e ↦ rw e (ap (λ t. c ∷ t) (plain_of-escaped s))
  | inr e ↦ ground (arith, e, plain_of-escaped s, plain_of-cons c (escaped s))
]

conv-IsQuoted : (v : Str) → IsQuoted conv v
conv-IsQuoted v = record {
  body = escaped v;
  literal = escaped-Literal v;
  quoted = refl;
  unquoted = ap (λ t. some t) (plain_of-escaped v);
}

abbrev pairs : List (Str × Str)
pairs = (codes "public_url", codes "https://r") ∷ (codes "data_dir", codes "/var # \"lib\"") ∷ []

pairs-AllKeys : AllKeys pairs
unfolding is_key_byte
pairs-AllKeys = ((refl, refl), ((refl, refl), tt))

load_from-pairs_example :
    (n : Values) × (load_from (some (codes "relay", Map.empty)) (lines_of conv pairs)
      ≡ some (codes "relay", n))
    × ((k v default : Str)
        → last_value k pairs ≡ some v
        → string_value conv n default (section_key (codes "relay") k ∷ []) ≡ v)
load_from-pairs_example =
    load_from-pairs conv (codes "relay") Map.empty pairs conv-IsQuoted pairs-AllKeys

-- A comment ends outside quotes only.
test_comment : strip_comment (codes "a = \"x#y\" # z") ≡ codes "a = \"x#y\" "
unfolding strip_comment
test_comment = refl

sort_strings_sorted_example :
    IsRising (sort_strings (codes "b" ∷ codes "a" ∷ codes "b" ∷ []))
    × ((z : Str)
        → count z (sort_strings (codes "b" ∷ codes "a" ∷ codes "b" ∷ []))
          ≡ count z (codes "b" ∷ codes "a" ∷ codes "b" ∷ []))
sort_strings_sorted_example = sort_strings_sorted (codes "b" ∷ codes "a" ∷ codes "b" ∷ [])
