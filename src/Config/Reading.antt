-- ===== src/Config/Reading.antt =====
-- What Write writes of the texts of a section, Load and String read back.
use chat_with_cli.Base.{
  ℕ, Str, List, [], ◌∷◌, ◌++◌, Option, none, some, true, false, is_empty, all, ◌≡◌, refl, sym, ap,
  ◌∙◌, arith, ◌==◌, str_eq, nat_eq, str_beq_iff, if◌then◌else◌, trim_space, trim_space-between,
  is_visible,
}
use chat_with_cli.Base.Map
use chat_with_cli.Config.{
  Strconv, enclosed, ends_in, load_line, load_next, load_from, section_key, Values, text, pair_line,
  format_value, string_value, string_of, or_default, parse_string, raw_value, raw_found,
}
use chat_with_cli.Config.Lines.{Literal, is_key_byte, strip_comment-pair, pair-trim, load_text-pair}

-- What is documented of Quote and Unquote: a text is quoted to a literal in double quotes, and
-- unquoting gives the text again.
pub record IsQuoted (lib : Strconv) (v : Str) : Type 0 where
  pub body : Str
  pub literal : Literal body
  pub quoted : lib.quote v ≡ b'"' ∷ (body ++ (b'"' ∷ []))
  pub unquoted : lib.unquote (lib.quote v) ≡ some v

abbrev pub IsKey : Str → Type 0
IsKey key = (is_empty key ≡ false) × (all is_key_byte key ≡ true)

abbrev pub AllKeys : List (Str × Str) → Type 0
AllKeys [] = Unit
AllKeys ((key, v) ∷ pairs) = IsKey key × AllKeys pairs

abbrev later_or : Option Str → Option Str → Option Str
later_or none o = o
later_or (some v) o = some v

-- The last text that is paired with a key.
abbrev pub last_value : Str → List (Str × Str) → Option Str
last_value k [] = none
last_value k ((j, v) ∷ pairs) = later_or (last_value k pairs) (if j == k then some v else none)

tail_inj : {c d : ℕ} {s t : Str} → c ∷ s ≡ d ∷ t → s ≡ t
tail_inj e = cc

append-inj : (s j k : Str) → s ++ (b'.' ∷ j) ≡ s ++ (b'.' ∷ k) → j ≡ k
append-inj [] j k e = cc
append-inj (c ∷ s) j k e = append-inj s j k (tail_inj e)

section_key-inj : (section j k : Str) → section_key section j ≡ section_key section k → j ≡ k
section_key-inj [] j k e = e
section_key-inj (c ∷ section) j k e = append-inj (c ∷ section) j k e

module _ (lib : Strconv) where
  abbrev pub lines_of : List (Str × Str) → List Str
  lines_of [] = []
  lines_of ((key, v) ∷ pairs) = pair_line lib key (text v) ∷ lines_of pairs

  abbrev put_all : Str → Values → List (Str × Str) → Values
  put_all section m [] = m
  put_all section m ((key, v) ∷ pairs) =
      put_all section (Map.put m (section_key section key) (lib.quote v)) pairs

  load_line-pair :
      (section key v : Str) (m : Values)
      → IsQuoted lib v
      → IsKey key
      → load_line (section, m) (pair_line lib key (text v))
        ≡ some (section, Map.put m (section_key section key) (lib.quote v))
  unfolding load_line pair_line format_value
  load_line-pair section [] v m q (n, h) = cc
  load_line-pair section (c ∷ key) v m q (n, h) =
      rw (q.quoted, strip_comment-pair (c ∷ key) q.body h q.literal, pair-trim c key q.body h)
        (load_text-pair section m c key q.body h)

  load_from-lines :
      (section : Str) (m : Values) (pairs : List (Str × Str))
      → ((v : Str) → IsQuoted lib v)
      → AllKeys pairs
      → load_from (some (section, m)) (lines_of pairs) ≡ some (section, put_all section m pairs)
  unfolding load_from load_next
  load_from-lines section m [] q h = refl
  load_from-lines section m ((key, v) ∷ pairs) q (k, h) =
      ap (λ st. load_from st (lines_of pairs)) (load_line-pair section key v m (q v) k)
      ∙ load_from-lines section (Map.put m (section_key section key) (lib.quote v)) pairs q h

  quoted_found : Option Str → Option Str → Option Str
  quoted_found none o = o
  quoted_found (some v) o = some (lib.quote v)

  get-put_all :
      (section k : Str) (m : Values) (pairs : List (Str × Str))
      → Map.get (put_all section m pairs) (section_key section k)
        ≡ quoted_found (last_value k pairs) (Map.get m (section_key section k))
  unfolding quoted_found
  get-put_all section k m [] = refl
  get-put_all section k m ((j, v) ∷ pairs) = ground (
    arith,
    get-put_all section k (Map.put m (section_key section j) (lib.quote v)) pairs,
    Map.get-put m (section_key section j) (section_key section k) (lib.quote v),
    str_beq_iff j k,
    str_beq_iff (section_key section j) (section_key section k),
    section_key-inj section j k,
  )

  ends_in-snoc : (s : Str) → ends_in b'"' (s ++ (b'"' ∷ [])) ≡ true
  unfolding ends_in
  ends_in-snoc [] = refl
  ends_in-snoc (c ∷ []) = refl
  ends_in-snoc (c ∷ d ∷ s) = ends_in-snoc (d ∷ s)

  trim_space-quoted :
      (body : Str) → trim_space (b'"' ∷ (body ++ (b'"' ∷ []))) ≡ b'"' ∷ (body ++ (b'"' ∷ []))
  unfolding is_visible
  trim_space-quoted body = trim_space-between b'"' b'"' body refl refl

  parse_string-quote :
      (v : Str) → IsQuoted lib v → parse_string lib (trim_space (lib.quote v)) ≡ some v
  unfolding parse_string enclosed
  parse_string-quote v q =
      rw (q.quoted, trim_space-quoted q.body, trim_space-quoted q.body, ends_in-snoc q.body)
        (ap lib.unquote (sym q.quoted) ∙ q.unquoted)

  string_value-quote :
      (n : Values) (default key v : Str)
      → IsQuoted lib v
      → Map.get n key ≡ some (lib.quote v)
      → string_value lib n default (key ∷ []) ≡ v
  unfolding string_value string_of raw_value raw_found or_default
  string_value-quote n default key v q h = rw (h, parse_string-quote v q) refl

  -- From a section on, Load takes every line that Write writes for a text, and of the values that
  -- it then holds, String returns for a key the last text that was written for it.
  pub load_from-pairs :
      (section : Str) (m : Values) (pairs : List (Str × Str))
      → ((v : Str) → IsQuoted lib v)
      → AllKeys pairs
      → (n : Values) × (load_from (some (section, m)) (lines_of pairs) ≡ some (section, n))
        × ((k v default : Str)
            → last_value k pairs ≡ some v
            → string_value lib n default (section_key section k ∷ []) ≡ v)
  unfolding quoted_found
  load_from-pairs section m pairs q h = (
    put_all section m pairs,
    load_from-lines section m pairs q h,
    λ k v default e.
        string_value-quote (put_all section m pairs) default (section_key section k) v (q v) (
          get-put_all section k m pairs
          ∙ ap (λ o. quoted_found o (Map.get m (section_key section k))) e),
  )
