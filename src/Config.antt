-- ===== src/Config.antt =====
-- internal/config/config.go: the configuration files, without the operations on the file system.
-- The lines of a file are those that bufio.Scanner gives.
pub mod Lines
pub mod Reading
pub mod Sorting
use chat_with_cli.Base.{
  ℕ, Str, List, [], ◌∷◌, ◌++◌, Option, none, some, Bool, true, false, ◌&&◌, ◌||◌, not, codes,
  is_empty, all, any, map, length, leb, ltb, reverse, ◌==◌, nat_eq, str_eq, trim_space, has_prefix,
  trim_prefix, if◌then◌else◌,
}
use chat_with_cli.Base.Map
use chat_with_cli.Base.Map.{Map}
use chat_with_cli.Usage.{ℤ}

-- What the code calls of package strconv. `unquote` and `parse_bool` are `none` on an error.
pub record Strconv : Type 0 where
  pub quote : Str → Str
  pub unquote : Str → Option Str
  pub format_bool : Bool → Str
  pub parse_bool : Str → Option Bool
  pub itoa : ℤ → Str

-- The quote that a byte leaves open, 0 for none, and whether it escapes the next one.
unfoldable pub next_quote : ℕ → Bool → ℕ → ℕ
next_quote q escaped ch =
    if q == 0
    then (if ch == b'"' || ch == 39 then ch else 0)
    else if escaped || (ch == 92 && q == b'"') || not (ch == q)
    then q
    else 0

unfoldable pub next_escaped : ℕ → Bool → ℕ → Bool
next_escaped q escaped ch = if q == 0 then escaped else not escaped && ch == 92 && q == b'"'

unfoldable pub strip_from : ℕ → Bool → Str → Str
unfolding next_quote next_escaped
strip_from q escaped [] = []
strip_from q escaped (ch ∷ s) =
    let rest = strip_from (next_quote q escaped ch) (next_escaped q escaped ch) s in
    if q == 0 && ch == b'#' then [] else ch ∷ rest

-- stripComment
unfoldable pub strip_comment : Str → Str
unfolding strip_from
strip_comment line = strip_from 0 false line

last_part : Str → List Str
last_part part = if is_empty (trim_space part) then [] else part ∷ []

-- The parts from a state on; what has been read of the current one is kept backwards.
split_parts : ℕ → Bool → Str → Str → List Str
unfolding next_quote next_escaped last_part
split_parts q escaped part [] = last_part (reverse part)
split_parts q escaped part (ch ∷ s) =
    let cut = q == 0 && ch == b',' in
    let rest =
      split_parts (next_quote q escaped ch) (next_escaped q escaped ch)
        (if cut then [] else ch ∷ part) s in
    if cut then reverse part ∷ rest else rest

-- splitArray
unfoldable pub split_array : Str → List Str
unfolding split_parts
split_array raw = split_parts 0 false [] raw

unfoldable pub ends_in : ℕ → Str → Bool
ends_in b [] = false
ends_in b (c ∷ []) = c == b
ends_in b (c ∷ d ∷ s) = ends_in b (d ∷ s)

-- s[1:len(s)-1]
unfoldable pub but_last : Str → Str
but_last [] = []
but_last (c ∷ []) = []
but_last (c ∷ d ∷ s) = c ∷ but_last (d ∷ s)

unfoldable pub inner : Str → Str
unfolding but_last
inner [] = []
inner (c ∷ s) = but_last s

-- At least two bytes, from one quote to another.
unfoldable pub enclosed : ℕ → ℕ → Str → Bool
unfolding ends_in
enclosed a b [] = false
enclosed a b (c ∷ s) = c == a && ends_in b s

unfoldable pub before : ℕ → Option (Str × Str) → Option (Str × Str)
before c none = none
before c (some (a, b)) = some (c ∷ a, b)

-- strings.Cut at the first byte `sep`.
unfoldable pub cut : ℕ → Str → Option (Str × Str)
unfolding before
cut sep [] = none
cut sep (c ∷ s) = let rest = cut sep s in if c == sep then some ([], s) else before c rest

unfoldable pub is_blank : ℕ → Bool
is_blank c = c == 32 || c == 9 || c == 13 || c == 10

-- Values: the raw texts by section and key.
abbrev pub Values : Type 0
Values = Map Str

abbrev pub section_key : Str → Str → Str
section_key [] key = key
section_key (c ∷ section) key = (c ∷ section) ++ (b'.' ∷ key)

-- A line with a key: the key is named in full, and its text is kept without the blanks around it.
unfoldable pub load_pair : Str → Values → Option (Str × Str) → Option (Str × Values)
unfolding is_blank
load_pair section values none = none
load_pair section values (some (key, raw)) =
    let k = trim_space key in
    if is_empty k || any is_blank k
    then none
    else some (section, Map.put values (section_key section k) (trim_space raw))

-- One turn of the loop of Load on its state, the section and the values; `none` is an error.
unfoldable pub load_text : Str → Values → Str → Option (Str × Values)
unfolding load_pair cut enclosed inner
load_text section values text =
    if is_empty text
    then some (section, values)
    else if enclosed b'[' b']' text
    then (let name = trim_space (inner text) in
        if name == codes "agent" || name == codes "relay" then some (name, values) else none)
    else load_pair section values (cut b'=' text)

unfoldable pub load_line : Str × Values → Str → Option (Str × Values)
unfolding load_text strip_comment
load_line (section, values) line = load_text section values (trim_space (strip_comment line))

unfoldable pub load_next : Option (Str × Values) → Str → Option (Str × Values)
unfolding load_line
load_next none line = none
load_next (some st) line = load_line st line

unfoldable pub load_from : Option (Str × Values) → List Str → Option (Str × Values)
unfolding load_next
load_from st [] = st
load_from st (line ∷ lines) = load_from (load_next st line) lines

values_of : Option (Str × Values) → Option Values
values_of none = none
values_of (some (section, values)) = some values

-- Load on the lines of the file
unfoldable pub load : List Str → Option Values
unfolding load_from values_of
load lines = values_of (load_from (some ([], Map.empty)) lines)

unfoldable pub raw_found : Option Str → Option Str → Option Str
raw_found none later = later
raw_found (some raw) later = some (trim_space raw)

-- Raw
unfoldable pub raw_value : Values → List Str → Option Str
unfolding raw_found
raw_value values [] = none
raw_value values (key ∷ keys) = raw_found (Map.get values key) (raw_value values keys)

-- a < b
unfoldable pub str_lt : Str → Str → Bool
str_lt [] [] = false
str_lt [] (d ∷ t) = true
str_lt (c ∷ s) [] = false
str_lt (c ∷ s) (d ∷ t) = ltb c d || (c == d && str_lt s t)

-- The inner loop of sortStrings: an element goes left past the greater ones. The elements before it
-- are given from right to left.
unfoldable pub swap_left : Str → List Str → List Str
unfolding str_lt
swap_left x [] = x ∷ []
swap_left x (y ∷ ys) = let rest = swap_left x ys in if str_lt x y then y ∷ rest else x ∷ y ∷ ys

unfoldable pub sort_from : List Str → List Str → List Str
unfolding swap_left
sort_from done [] = reverse done
sort_from done (x ∷ xs) = sort_from (swap_left x done) xs

-- sortStrings
unfoldable pub sort_strings : List Str → List Str
unfolding sort_from
sort_strings values = sort_from [] values

-- The types of value that formatValue tells apart; it prints any other as a string.
pub data Value : Type 0 where
  text : Str → Value
  switch : Bool → Value
  number : ℤ → Value
  texts : List Str → Value

abbrev join_comma : List Str → Str
join_comma [] = []
join_comma (s ∷ []) = s
join_comma (s ∷ t ∷ r) = s ++ (codes ", " ++ join_comma (t ∷ r))

module _ (lib : Strconv) where
  -- parseString
  unfoldable pub parse_string : Str → Option Str
  unfolding is_blank
  parse_string value =
      let raw = trim_space value in
      if enclosed 39 39 raw
      then some (inner raw)
      else if enclosed b'"' b'"' raw
      then lib.unquote raw
      else if is_empty raw || any (λ c. c == 13 || c == 10) raw
      then none
      else some raw

  unfoldable pub or_default : Str → Option Str → Str
  or_default default none = default
  or_default default (some s) = s

  unfoldable pub string_of : Str → Option Str → Str
  unfolding or_default parse_string
  string_of default none = default
  string_of default (some raw) = or_default default (parse_string raw)

  -- String
  unfoldable pub string_value : Values → Str → List Str → Str
  unfolding string_of
  string_value values default keys = string_of default (raw_value values keys)

  bool_of : Bool → Option Bool → Bool
  bool_of default none = default
  bool_of default (some b) = b

  -- Bool
  unfoldable pub bool_value : Values → Bool → List Str → Bool
  unfolding bool_of
  bool_value values default keys = elim (raw_value values keys) [
    | none ↦ default
    | some raw ↦ bool_of default (lib.parse_bool raw)
  ]

  parse_each : List Str → Option (List Str)
  unfolding parse_string
  parse_each [] = some []
  parse_each (part ∷ parts) = elim (parse_string (trim_space part)) [
    | none ↦ none
    | some value ↦ (elim (parse_each parts) [ none ↦ none | some values ↦ some (value ∷ values) ])
  ]

  strings_of : Option (List Str) → List Str
  strings_of none = []
  strings_of (some values) = values

  -- Strings
  unfoldable pub strings_value : Values → List Str → List Str
  unfolding parse_each strings_of
  strings_value values keys = elim (raw_value values keys) [
    | none ↦ []
    | some raw ↦
        if enclosed b'[' b']' (trim_space raw)
        then strings_of (parse_each (split_array (inner (trim_space raw))))
        else []
  ]

  -- formatValue
  unfoldable pub format_value : Value → Str
  format_value (text s) = lib.quote s
  format_value (switch b) = lib.format_bool b
  format_value (number n) = lib.itoa n
  format_value (texts l) = b'[' ∷ (join_comma (map lib.quote l) ++ (b']' ∷ []))

  -- key+" = "+formatValue(value)
  unfoldable pub pair_line : Str → Value → Str
  unfolding format_value
  pair_line key value = key ++ (codes " = " ++ format_value value)

  pair_found : Str → Option Value → List Str
  unfolding pair_line
  pair_found key none = []
  pair_found key (some value) = pair_line key value ∷ []

  pair_lines : Map Value → List Str → List Str
  unfolding pair_found
  pair_lines values [] = []
  pair_lines values (key ∷ keys) = pair_found key (Map.get values key) ++ pair_lines values keys

  -- The values of one section, by their keys without its name.
  unfoldable pub in_section : Str → List (Str × Value) → Map Value
  in_section section [] = Map.empty
  in_section section ((key, value) ∷ rest) =
      let others = in_section section rest in
      let prefix = section ++ (b'.' ∷ []) in
      if has_prefix key prefix then Map.put others (trim_prefix key prefix) value else others

  section_lines : Str → Map Value → List Str
  unfolding pair_lines
  section_lines section values =
      if Map.size values == 0
      then []
      else (b'[' ∷ (section ++ (b']' ∷ [])))
        ∷ (pair_lines values (sort_strings (Map.keys values)) ++ ([] ∷ []))

  -- The lines that Write joins
  unfoldable pub write_lines : Map Value → List Str
  unfolding section_lines
  write_lines values =
      codes "# chat-with-cli configuration; secrets belong in the environment, not this file"
      ∷ []
      ∷ (section_lines (codes "relay") (in_section (codes "relay") values.entries)
          ++ section_lines (codes "agent") (in_section (codes "agent") values.entries))
