-- ===== src/Prelude/Text.antt =====
-- The functions of Go's package `strings` that the platform calls, over the native text. A Go string
-- is bytes; the model reads it as the text that they encode, so it speaks of valid UTF-8.
use Prim.Native.Nat.{ℕ, zero, suc, ◌+◌, ◌-◌}
use Prim.Native.Char.{Char, code}
use Prim.Native.String.{String}
use mathlib.Core.Bool.{Bool, true, false, ◌&&◌, ◌||◌}
use mathlib.Core.Option.{Option, none, some}
use mathlib.Core.List.{List, [], ◌∷◌}
use text.Mathlib.Text.{◌==◌}
use a2a_platform_go.Prelude.Tests.{leb, ltb, ◌=?◌, if◌then◌else◌}

-- unicode.IsSpace
unfoldable pub is_space : ℕ → Bool
is_space c =
    (leb 9 c && leb c 13)
    || c =? 32
    || c =? 0x85
    || c =? 0xa0
    || c =? 0x1680
    || (leb 0x2000 c && leb c 0x200a)
    || c =? 0x2028
    || c =? 0x2029
    || c =? 0x202f
    || c =? 0x205f
    || c =? 0x3000

unfoldable pub trim_left : String → String
unfolding is_space
trim_left String.[] = ""
trim_left (String.◌∷◌ c s) =
    let rest = trim_left s in if is_space (code c) then rest else String.◌∷◌ c s

-- What is left of `c` before a rest from which trailing space has been cut.
abbrev keep_char : (ℕ → Bool) → Char → String → String
keep_char p c String.[] = if p (code c) then "" else String.◌∷◌ c ""
keep_char p c (String.◌∷◌ d s) = String.◌∷◌ c (String.◌∷◌ d s)

unfoldable pub trim_right_where : (ℕ → Bool) → String → String
trim_right_where p String.[] = ""
trim_right_where p (String.◌∷◌ c s) = keep_char p c (trim_right_where p s)

-- strings.TrimSpace
unfoldable pub trim_space : String → String
unfolding trim_left trim_right_where
trim_space s = trim_right_where is_space (trim_left s)

-- strings.TrimPrefix behind strings.HasPrefix: what follows the prefix, if it is there.
unfoldable pub cut_prefix : String → String → Option String
cut_prefix String.[] s = some s
cut_prefix (String.◌∷◌ c p) String.[] = none
cut_prefix (String.◌∷◌ c p) (String.◌∷◌ d s) =
    let rest = cut_prefix p s in if code c =? code d then rest else none

unfoldable pub has_prefix : String → String → Bool
unfolding cut_prefix
has_prefix s p = elim (cut_prefix p s) [ none ↦ false | some rest ↦ true ]

unfoldable pub has_suffix : String → String → Bool
has_suffix String.[] t = t == ""
has_suffix (String.◌∷◌ c s) t = String.◌∷◌ c s == t || has_suffix s t

-- strings.Split by a separator of one character: never empty.
abbrev cons_part : Char → List String → List String
cons_part c [] = String.◌∷◌ c "" ∷ []
cons_part c (part ∷ parts) = String.◌∷◌ c part ∷ parts

unfoldable pub split : ℕ → String → List String
split sep String.[] = "" ∷ []
split sep (String.◌∷◌ c s) = if code c =? sep then "" ∷ split sep s else cons_part c (split sep s)

-- strings.TrimSuffix behind strings.HasSuffix: what precedes the suffix, if it is there.
abbrev after_char : Char → Option String → Option String
after_char c none = none
after_char c (some s) = some (String.◌∷◌ c s)

unfoldable pub cut_suffix : String → String → Option String
cut_suffix String.[] t = if t == "" then some "" else none
cut_suffix (String.◌∷◌ c s) t =
    let rest = after_char c (cut_suffix s t) in if String.◌∷◌ c s == t then some "" else rest

-- strings.Contains
unfoldable pub contains : String → String → Bool
unfolding has_prefix
contains String.[] t = t == ""
contains (String.◌∷◌ c s) t = has_prefix (String.◌∷◌ c s) t || contains s t

-- The bytes of a character in UTF-8.
abbrev width : ℕ → ℕ
width c = if ltb c 0x80 then 1 else if ltb c 0x800 then 2 else if ltb c 0x10000 then 3 else 4

-- len(s)
unfoldable pub byte_length : String → ℕ
byte_length String.[] = 0
byte_length (String.◌∷◌ c s) = width (code c) + byte_length s

abbrev broken : ℕ → String
broken zero = ""
broken (suc n) = String.◌∷◌ "�" (broken n)

-- s[:n]. The bytes of a character that the end falls into each read as U+FFFD, as encoding/json
-- writes them.
unfoldable pub cut : ℕ → String → String
cut n String.[] = ""
cut n (String.◌∷◌ c s) =
    let rest = cut (n - width (code c)) s in
    if leb (width (code c)) n then String.◌∷◌ c rest else broken n
