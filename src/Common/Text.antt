-- ===== src/Common/Text.antt =====
-- The string methods that the source calls, over the code points of a text.
pub mod Splitting
pub mod Appending
use Prim.Native.Char.{Char, code}
use Prim.Native.String
use Prim.Native.String.{String, [], ◌∷◌}
use mathlib.Core.List.{List}
use mathlib.Core.Bool.{Bool, true, false, not, ◌&&◌, ◌||◌}
use mathlib.Core.Option.{Option, none, some}
use text.Mathlib.Text.{◌==◌ as text_eq}
use authometry.Common.Tests.{if◌then◌else◌, ◌==◌, ltb, leb, truthy, is_some}
use authometry.Common.Lists.{keep}
use Prim.Native.Nat.{ℕ, zero, suc, ◌+◌, ◌-◌, ◌*◌, ◌/◌, ◌%◌}

infixr 66 ◌+s◌
-- `a + b` and template literals.
abbrev pub ◌+s◌ : String → String → String
a +s b = String.◌++◌ a b

abbrev pub push : String → Char → String
push s c = s +s (c ∷ [])

split_from : ℕ → String → String → List String
split_from sep cur [] = List.◌∷◌ cur List.[]
split_from sep cur (c ∷ s) =
    let closed = List.◌∷◌ cur (split_from sep "" s) in
    let longer = split_from sep (push cur c) s in if code c == sep then closed else longer

-- `s.split(sep)` at a separator of one character.
unfoldable pub split : ℕ → String → List String
unfolding split_from
split sep s = split_from sep "" s

-- `s.split(" ").filter(Boolean)`.
unfoldable pub words : String → List String
unfolding split
words s = keep truthy (split b' ' s)

-- `xs.join(" ")`.
unfoldable pub join : List String → String
join List.[] = ""
join (List.◌∷◌ x List.[]) = x
join (List.◌∷◌ x (List.◌∷◌ y ys)) = x +s " " +s join (List.◌∷◌ y ys)

-- What follows the prefix, if the text starts with it: `startsWith` and `slice`.
unfoldable pub strip_prefix : String → String → Option String
strip_prefix [] s = some s
strip_prefix (p ∷ ps) [] = none
strip_prefix (p ∷ ps) (c ∷ s) =
    let rest = strip_prefix ps s in if code p == code c then rest else none

-- `s.replace(/\/$/, "")`.
unfoldable pub strip_slash : String → String
strip_slash [] = []
strip_slash (c ∷ []) = if code c == b'/' then [] else c ∷ []
strip_slash (c ∷ (d ∷ s)) = c ∷ strip_slash (d ∷ s)

-- `s.endsWith(t)`.
unfoldable pub ends_with : String → String → Bool
ends_with [] t = text_eq "" t
ends_with (c ∷ s) t = text_eq (c ∷ s) t || ends_with s t

-- `s.startsWith(p)`.
abbrev pub starts : String → String → Bool
starts p s = is_some (strip_prefix p s)

-- The text before and after the first `sep`: `indexOf` and two `slice`s; `none` without one.
unfoldable pub cut : ℕ → String → Option (String × String)
cut sep [] = none
cut sep (c ∷ s) =
    let rest = cut sep s in
    if code c == sep
    then some ("", s)
    else elim rest [ none ↦ none | some (before, after) ↦ some (c ∷ before, after) ]

-- `s.slice(0, s.indexOf(marker))`; `none` where the marker does not occur.
unfoldable pub before_marker : String → String → Option String
before_marker marker [] = if starts marker "" then some "" else none
before_marker marker (c ∷ s) =
    let rest = before_marker marker s in
    if starts marker (c ∷ s)
    then some ""
    else elim rest [ none ↦ none | some before ↦ some (c ∷ before) ]

-- `s.slice(0, n)`.
abbrev pub first : ℕ → String → String
first n [] = []
first n (c ∷ s) = if n == 0 then [] else c ∷ first (n - 1) s

-- `s[n]`; the empty text out of range.
unfoldable pub nth : ℕ → String → String
nth n [] = []
nth n (c ∷ s) = let rest = nth (n - 1) s in if n == 0 then c ∷ [] else rest

decimal_from : ℕ → ℕ → String → String
unfolding nth
decimal_from zero n s = s
decimal_from (suc fuel) n s =
    let longer = nth (n % 10) "0123456789" +s s in
    let rest = decimal_from fuel (n / 10) longer in if ltb n 10 then longer else rest

-- `String(n)`; a number has fewer digits than its successor.
unfoldable pub decimal : ℕ → String
unfolding decimal_from
decimal n = decimal_from (suc n) n ""

number_from : ℕ → String → Option ℕ
number_from n [] = some n
number_from n (c ∷ s) =
    let rest = number_from (n * 10 + (code c - b'0')) s in
    if leb b'0' (code c) && leb (code c) b'9' then rest else none

-- `Number(s)` of a text that `/^\d+$/` accepts.
unfoldable pub number_of : String → Option ℕ
unfolding number_from
number_of [] = none
number_of (c ∷ s) = number_from 0 (c ∷ s)

-- `s.includes(t)`.
abbrev pub contains : String → String → Bool
contains s t = is_some (before_marker t s)

-- The UTF-16 units of a code point.
abbrev pub units : Char → ℕ
units c = if ltb 65535 (code c) then 2 else 1

-- `s.length`, which counts UTF-16 units.
abbrev pub text_length : String → ℕ
text_length [] = 0
text_length (c ∷ s) = units c + text_length s

swapped : Char → String → String → Char
swapped c (x ∷ xs) (y ∷ ys) = let rest = swapped c xs ys in if code c == code x then y else rest
swapped c [] ys = c
swapped c (x ∷ xs) [] = c

-- `s.toUpperCase()` on ASCII.
unfoldable pub upper_case : String → String
unfolding swapped
upper_case [] = []
upper_case (c ∷ s) =
    swapped c "abcdefghijklmnopqrstuvwxyz" "ABCDEFGHIJKLMNOPQRSTUVWXYZ" ∷ upper_case s

-- `s.toLowerCase()` and SQL's `lower(s)` on ASCII.
unfoldable pub lower_case : String → String
unfolding swapped
lower_case [] = []
lower_case (c ∷ s) =
    swapped c "ABCDEFGHIJKLMNOPQRSTUVWXYZ" "abcdefghijklmnopqrstuvwxyz" ∷ lower_case s

-- The characters that pass a test on their code points.
unfoldable pub keep_codes : (ℕ → Bool) → String → String
keep_codes p [] = []
keep_codes p (c ∷ s) = let rest = keep_codes p s in if p (code c) then c ∷ rest else rest

unfoldable pub every_code : (ℕ → Bool) → String → Bool
every_code p [] = true
every_code p (c ∷ s) = p (code c) && every_code p s

-- `s.codePointAt(n)`; `none` out of range.
unfoldable pub code_at : ℕ → String → Option ℕ
code_at n [] = none
code_at n (c ∷ s) = let rest = code_at (n - 1) s in if n == 0 then some (code c) else rest

index_from : ℕ → ℕ → String → Option ℕ
index_from n sought [] = none
index_from n sought (c ∷ s) =
    let rest = index_from (suc n) sought s in if code c == sought then some n else rest

-- `s.indexOf(c)`; `none` for -1.
unfoldable pub index_of : ℕ → String → Option ℕ
unfolding index_from
index_of sought s = index_from 0 sought s

-- `\s`.
unfoldable pub is_space : ℕ → Bool
is_space n =
    leb 9 n && leb n 13
    || n == 32
    || n == 160
    || n == 5760
    || leb 8192 n && leb n 8202
    || n == 8232
    || n == 8233
    || n == 8239
    || n == 8287
    || n == 12288
    || n == 65279

trim_start : String → String
trim_start [] = []
trim_start (c ∷ s) = let rest = trim_start s in if is_space (code c) then rest else c ∷ s

trim_end : String → String
trim_end [] = []
trim_end (c ∷ s) =
    let rest = trim_end s in if is_space (code c) && not (truthy rest) then [] else c ∷ rest

-- `s.trim()`.
unfoldable pub trim : String → String
unfolding trim_start trim_end
trim s = trim_end (trim_start s)
