-- ===== src/Prelude/Texts.antt =====
-- What the program uses of Go's packages strings and strconv.
use Prim.Native.Nat.{ℕ, zero, suc, ◌+◌, ◌-◌, ◌*◌}
use Prim.Native.Char.{Char, code}
use Prim.Native.String.{String}
use mathlib.Core.Path.{◌≡◌, refl}
use mathlib.Core.Bool.{Bool, true, false, ◌&&◌}
use mathlib.Core.List.{List, [], ◌∷◌}
use mathlib.Core.Option.{Option, none, some}
use workflow_execution_engin.Prelude.Tests.{leb, eqb, if◌then◌else◌}
use workflow_execution_engin.Prelude.Integers.{ℤ, pos, negsuc}

-- A new first character for the first piece of a split text.
prefix_first : Char → List String → List String
prefix_first c [] = String.◌∷◌ c String.[] ∷ []
prefix_first c (piece ∷ pieces) = String.◌∷◌ c piece ∷ pieces

-- strings.Split(s, sep) at a separator of one character: never empty.
unfoldable pub split : ℕ → String → List String
unfolding prefix_first
split sep String.[] = "" ∷ []
split sep (String.◌∷◌ c s) =
    let rest = split sep s in if eqb (code c) sep then "" ∷ rest else prefix_first c rest

-- strings.HasPrefix(s, start)
unfoldable pub has_prefix : String → String → Bool
has_prefix s String.[] = true
has_prefix String.[] (String.◌∷◌ c start) = false
has_prefix (String.◌∷◌ d s) (String.◌∷◌ c start) = eqb (code d) (code c) && has_prefix s start

-- strings.CutPrefix(s, start), where it is found
unfoldable pub cut_prefix : String → String → Option String
cut_prefix s String.[] = some s
cut_prefix String.[] (String.◌∷◌ c start) = none
cut_prefix (String.◌∷◌ d s) (String.◌∷◌ c start) =
    let rest = cut_prefix s start in if eqb (code d) (code c) then rest else none

unfoldable pub append_text : String → String → String
append_text String.[] t = t
append_text (String.◌∷◌ c s) t = String.◌∷◌ c (append_text s t)

unfoldable pub text_length : String → ℕ
text_length String.[] = 0
text_length (String.◌∷◌ c s) = suc (text_length s)

-- strings.Cut(s, sep), where the separator is found
cut_before : Char → Option (String × String) → Option (String × String)
cut_before c none = none
cut_before c (some (a, b)) = some (String.◌∷◌ c a, b)

cut_here : Option String → Option (String × String) → Option (String × String)
cut_here none later = later
cut_here (some rest) later = some ("", rest)

unfoldable pub cut : (sep : String) → String → Option (String × String)
unfolding cut_prefix cut_before cut_here
cut sep String.[] = cut_here (cut_prefix "" sep) none
cut sep (String.◌∷◌ c s) = cut_here (cut_prefix (String.◌∷◌ c s) sep) (cut_before c (cut sep s))

-- strings.ReplaceAll for a text that is not empty; `skip` characters are of the last occurrence.
replace_from : (old new : String) → (skip : ℕ) → String → String
unfolding has_prefix append_text text_length
replace_from old new skip String.[] = ""
replace_from old new (suc skip) (String.◌∷◌ c s) = replace_from old new skip s
replace_from old new zero (String.◌∷◌ c s) =
    let after = replace_from old new (text_length old - 1) s in
    let kept = replace_from old new 0 s in
    if has_prefix (String.◌∷◌ c s) old then append_text new after else String.◌∷◌ c kept

unfoldable pub replace_all : (old new : String) → String → String
unfolding replace_from
replace_all old new s = replace_from old new 0 s

-- A character before a text, where there is one.
prefix_char : Char → Option String → Option String
prefix_char c none = none
prefix_char c (some s) = some (String.◌∷◌ c s)

-- What stands before a closing brace that ends the text, if it is on one line.
unfoldable pub before_brace : String → Option String
unfolding prefix_char
before_brace String.[] = none
before_brace (String.◌∷◌ c String.[]) = if eqb (code c) b'}' then some "" else none
before_brace (String.◌∷◌ c (String.◌∷◌ d s)) =
    let rest = before_brace (String.◌∷◌ d s) in if eqb (code c) 10 then none else prefix_char c rest

nonempty_text : Option String → Option String
nonempty_text none = none
nonempty_text (some String.[]) = none
nonempty_text (some (String.◌∷◌ c s)) = some (String.◌∷◌ c s)

inner_text : Option String → Option String
unfolding nonempty_text before_brace
inner_text none = none
inner_text (some s) = nonempty_text (before_brace s)

-- The submatch of ^start(.+)\\}$, for a text that starts a placeholder.
unfoldable pub placeholder : (start : String) → String → Option String
unfolding cut_prefix inner_text
placeholder start s = inner_text (cut_prefix s start)

-- The decimal digits of a text, with the value read so far.
digits_value : ℕ → String → Option ℕ
digits_value acc String.[] = some acc
digits_value acc (String.◌∷◌ c s) =
    let rest = digits_value (acc * 10 + (code c - b'0')) s in
    if leb b'0' (code c) && leb (code c) b'9' then rest else none

parse_digits : String → Option ℕ
unfolding digits_value
parse_digits String.[] = none
parse_digits (String.◌∷◌ c s) = digits_value 0 (String.◌∷◌ c s)

-- A number within the range of int64; `limit` is the largest magnitude.
within : ℕ → (ℕ → ℤ) → Option ℕ → Option ℤ
within limit sign none = none
within limit sign (some n) = if leb n limit then some (sign n) else none

negate : ℕ → ℤ
negate zero = pos 0
negate (suc n) = negsuc n

-- strconv.Atoi: `none` stands for its error.
unfoldable pub atoi : String → Option ℤ
unfolding parse_digits within negate
atoi String.[] = none
atoi (String.◌∷◌ c s) =
    if eqb (code c) b'-'
    then within 9223372036854775808 negate (parse_digits s)
    else if eqb (code c) b'+'
    then within 9223372036854775807 pos (parse_digits s)
    else within 9223372036854775807 pos (parse_digits (String.◌∷◌ c s))

split_path : split b'.' "result.0.ok" ≡ "result" ∷ "0" ∷ "ok" ∷ []
unfolding split
split_path = refl

placeholder_name : placeholder "${input:" "${input:topic}" ≡ some "topic"
unfolding placeholder
placeholder_name = refl

replaced : replace_all "key" "${env:K}" "a key, a keykey" ≡ "a ${env:K}, a ${env:K}${env:K}"
unfolding replace_all
replaced = refl

cut_once : cut ":-" "NAME:-a:-b" ≡ some ("NAME", "a:-b")
unfolding cut
cut_once = refl

atoi_negative : atoi "-12" ≡ some (negsuc 11)
unfolding atoi
atoi_negative = refl
