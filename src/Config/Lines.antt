-- ===== src/Config/Lines.antt =====
-- A line that Write writes is read back by Load.
use chat_with_cli.Base.{
  ℕ, Str, [], ◌∷◌, ◌++◌, some, Bool, true, false, ◌&&◌, ◌||◌, not, codes, all, any, leb, ◌≡◌, ◌≢◌,
  refl, sym, ap, ◌∙◌, arith, ◌==◌, nat_eq, &&-parts, trim_space, trim_space-between, is_visible,
  trim_space-after, trim_space-before,
}
use chat_with_cli.Base.Map
use chat_with_cli.Config.{
  strip_from, strip_comment, next_quote, next_escaped, cut, before, enclosed, load_text, load_pair,
  section_key, Values, is_blank,
}

-- The inside of a literal in double quotes: no quote but after a backslash.
pub data Literal : Str → Type 0 where
  closed : Literal []
  plain : {c : ℕ} {s : Str} → c ≢ b'"' → c ≢ 92 → Literal s → Literal (c ∷ s)
  escape : {c : ℕ} {s : Str} → Literal s → Literal (92 ∷ c ∷ s)

-- A byte of a key: visible, and none that a line gives a meaning.
unfoldable pub is_key_byte : ℕ → Bool
is_key_byte c =
    leb 33 c && leb c 126 && not (c == b'=' || c == b'#' || c == b'"' || c == 39 || c == b'[')

strip-key :
    (key s : Str)
    → all is_key_byte key ≡ true
    → strip_from 0 false (key ++ s) ≡ key ++ strip_from 0 false s
unfolding strip_from next_quote next_escaped is_key_byte
strip-key [] s h = refl
strip-key (c ∷ key) s h = ground (arith, strip-key key s)

strip-Literal :
    {body : Str} → Literal body → strip_from b'"' false (body ++ (b'"' ∷ [])) ≡ body ++ (b'"' ∷ [])
unfolding strip_from next_quote next_escaped
strip-Literal closed = refl
strip-Literal (plain {c = c} {s = s} p q l) = ground (arith, strip-Literal l)
strip-Literal (escape {c = c} {s = s} l) = ground (arith, strip-Literal l)

-- The text of a line after its key: blanks, the sign and a literal.
abbrev pub rest_of : Str → Str
rest_of body = codes " = " ++ (b'"' ∷ (body ++ (b'"' ∷ [])))

strip-rest : (body : Str) → Literal body → strip_from 0 false (rest_of body) ≡ rest_of body
unfolding strip_from next_quote next_escaped
strip-rest body l = ap (λ t. codes " = " ++ (b'"' ∷ t)) (strip-Literal l)

pub strip_comment-pair :
    (key body : Str)
    → all is_key_byte key ≡ true
    → Literal body
    → strip_comment (key ++ rest_of body) ≡ key ++ rest_of body
unfolding strip_comment
strip_comment-pair key body h l =
    strip-key key (rest_of body) h ∙ ap (λ t. key ++ t) (strip-rest body l)

cut-key :
    (key s : Str)
    → all is_key_byte key ≡ true
    → cut b'=' (key ++ (codes " =" ++ s)) ≡ some (key ++ (32 ∷ []), s)
unfolding cut before is_key_byte
cut-key [] s h = refl
cut-key (c ∷ key) s h = ground (arith, cut-key key s)

key-visible : (key : Str) → all is_key_byte key ≡ true → all is_visible key ≡ true
unfolding is_key_byte is_visible
key-visible [] h = refl
key-visible (c ∷ key) h = ground (arith, key-visible key)

visible-blank : (key : Str) → all is_key_byte key ≡ true → any is_blank key ≡ false
unfolding is_key_byte is_blank
visible-blank [] h = refl
visible-blank (c ∷ key) h = ground (arith, visible-blank key)

append_assoc : (s t r : Str) → s ++ (t ++ r) ≡ (s ++ t) ++ r
append_assoc [] t r = refl
append_assoc (c ∷ s) t r = ap (λ x. c ∷ x) (append_assoc s t r)

quoted-trim :
    (body : Str) → trim_space (32 ∷ b'"' ∷ (body ++ (b'"' ∷ []))) ≡ b'"' ∷ (body ++ (b'"' ∷ []))
unfolding is_visible
quoted-trim body = trim_space-before _ ∙ trim_space-between b'"' b'"' body refl refl

pub pair-trim :
    (c : ℕ) (key body : Str)
    → all is_key_byte (c ∷ key) ≡ true
    → trim_space ((c ∷ key) ++ rest_of body) ≡ (c ∷ key) ++ rest_of body
unfolding is_visible
pair-trim c key body h =
    let s = key ++ (codes " = " ++ (b'"' ∷ body)) in
    let e : s ++ (b'"' ∷ []) ≡ key ++ rest_of body =
      sym (append_assoc key (codes " = " ++ (b'"' ∷ body)) (b'"' ∷ [])) in
    ap (λ t. trim_space (c ∷ t)) (sym e)
    ∙ trim_space-between c b'"' s (&&-parts (is_visible c) _ (key-visible (c ∷ key) h)).0 refl
    ∙ ap (λ t. c ∷ t) e

load_pair-key :
    (section : Str) (values : Values) (c : ℕ) (key body : Str)
    → all is_key_byte (c ∷ key) ≡ true
    → load_pair section values (some ((c ∷ key) ++ (32 ∷ []), 32 ∷ b'"' ∷ (body ++ (b'"' ∷ []))))
      ≡ some
          (section, Map.put values (section_key section (c ∷ key)) (b'"' ∷ (body ++ (b'"' ∷ []))))
unfolding load_pair
load_pair-key section values c key body h =
    rw
      (
        trim_space-after (c ∷ key) (key-visible (c ∷ key) h),
        visible-blank (c ∷ key) h,
        quoted-trim body,
      )
      refl

no_bracket : (c : ℕ) (s : Str) → is_key_byte c ≡ true → enclosed b'[' b']' (c ∷ s) ≡ false
unfolding enclosed is_key_byte
no_bracket c s h = ground arith

pub load_text-pair :
    (section : Str) (values : Values) (c : ℕ) (key body : Str)
    → all is_key_byte (c ∷ key) ≡ true
    → load_text section values ((c ∷ key) ++ rest_of body)
      ≡ some
          (section, Map.put values (section_key section (c ∷ key)) (b'"' ∷ (body ++ (b'"' ∷ []))))
unfolding load_text
load_text-pair section values c key body h =
    rw (no_bracket c (key ++ rest_of body) (&&-parts (is_key_byte c) _ h).0) (
      ap (λ o. load_pair section values o) (cut-key (c ∷ key) (32 ∷ b'"' ∷ (body ++ (b'"' ∷ []))) h)
      ∙ load_pair-key section values c key body h)
