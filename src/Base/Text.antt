-- ===== src/Base/Text.antt =====
-- What the program uses of Go's package strings, over code points.
use Prim.Native.Nat.{ℕ, zero, suc, ◌+◌, ◌/◌, ◌%◌}
use Prim.Native.Char.{Char, code}
use Prim.Native.String.{String, [], ◌∷◌, ◌++◌}
use mathlib.Core.Path.{◌≡◌, ap}
use mathlib.Core.Bool.{Bool, true, false, ◌&&◌, ◌||◌}
use mathlib.Core.Option.{Option, none, some}
use native.Mathlib.Omega.{arith}
use text.Mathlib.TextEquality.{Char-path}
use text.Mathlib.TextLemmas.{nil-append, cons-append}
use k8s_runpod_kubelet.Base.Tests.{if◌then◌else◌, eqb, leb, ltb, is_some}

-- unicode.IsSpace
unfoldable pub is_space : ℕ → Bool
is_space c =
    (leb 9 c && leb c 13)
    || eqb c 32
    || eqb c 0x85
    || eqb c 0xa0
    || eqb c 0x1680
    || (leb 0x2000 c && leb c 0x200a)
    || eqb c 0x2028
    || eqb c 0x2029
    || eqb c 0x202f
    || eqb c 0x205f
    || eqb c 0x3000

unfoldable pub trim_left : String → String
trim_left [] = []
trim_left (c ∷ s) = let rest = trim_left s in if is_space (code c) then rest else c ∷ s

-- A space is kept only where something else follows it.
keep_unless_blank : Char → String → String
keep_unless_blank c [] = if is_space (code c) then [] else c ∷ []
keep_unless_blank c (d ∷ s) = c ∷ d ∷ s

unfoldable pub trim_right : String → String
unfolding keep_unless_blank
trim_right [] = []
trim_right (c ∷ s) = keep_unless_blank c (trim_right s)

-- strings.TrimSpace
unfoldable pub trim_space : String → String
unfolding trim_left trim_right is_space
trim_space s = trim_right (trim_left s)

-- What follows a prefix, if the text has it.
unfoldable pub strip_prefix : String → String → Option String
strip_prefix [] s = some s
strip_prefix (c ∷ p) [] = none
strip_prefix (c ∷ p) (d ∷ s) = if eqb (code c) (code d) then strip_prefix p s else none

-- strings.HasPrefix(s, p)
abbrev pub has_prefix : String → String → Bool
has_prefix s p = is_some (strip_prefix p s)

unfoldable pub splice : String → Option String → String → String
splice new none other = other
splice new (some rest) other = new ++ rest

-- strings.Replace(s, old, new, 1)
unfoldable pub replace_first : String → String → String → String
unfolding splice strip_prefix
replace_first [] old new = splice new (strip_prefix old []) []
replace_first (c ∷ s) old new = splice new (strip_prefix old (c ∷ s)) (c ∷ replace_first s old new)

-- strings.Contains(s, part)
unfoldable pub contains_text : String → String → Bool
unfolding strip_prefix
contains_text [] part = has_prefix [] part
contains_text (c ∷ s) part = has_prefix (c ∷ s) part || contains_text s part

-- strings.Cut(s, sep) at a one-character separator, without the flag that tells if it was found.
unfoldable pub cut : String → ℕ → String × String
cut [] sep = ([], [])
cut (c ∷ s) sep = let rest = cut s sep in if eqb (code c) sep then ([], s) else (c ∷ rest.0, rest.1)

-- The simple case folding that can reach an ASCII letter: A-Z, the long s and the Kelvin sign.
unfoldable pub fold_case : ℕ → ℕ
fold_case c =
    if leb b'A' c && leb c b'Z'
    then c + 32
    else if eqb c 0x17f
    then b's'
    else if eqb c 0x212a
    then b'k'
    else c

-- strings.EqualFold against an ASCII text
unfoldable pub equal_fold : String → String → Bool
unfolding fold_case
equal_fold [] [] = true
equal_fold [] (d ∷ t) = false
equal_fold (c ∷ s) [] = false
equal_fold (c ∷ s) (d ∷ t) = eqb (fold_case (code c)) (fold_case (code d)) && equal_fold s t

-- What strings.ToLower can make of a code point that ends up in ASCII, but for U+0130 and the
-- Kelvin sign, which become `i` and `k`.
unfoldable pub to_lower : ℕ → ℕ
to_lower c = if leb b'A' c && leb c b'Z' then c + 32 else c

has_prefix_lower : String → String → Bool
unfolding to_lower
has_prefix_lower s [] = true
has_prefix_lower [] (d ∷ p) = false
has_prefix_lower (c ∷ s) (d ∷ p) = eqb (to_lower (code c)) (code d) && has_prefix_lower s p

-- strings.Contains(strings.ToLower(s), part), for an ASCII part in which `i` and `k` do not occur
unfoldable pub contains_lower : String → String → Bool
unfolding has_prefix_lower
contains_lower [] part = has_prefix_lower [] part
contains_lower (c ∷ s) part = has_prefix_lower (c ∷ s) part || contains_lower s part

digit : ℕ → String
digit n =
    if eqb n 0
    then "0"
    else if eqb n 1
    then "1"
    else if eqb n 2
    then "2"
    else if eqb n 3
    then "3"
    else if eqb n 4
    then "4"
    else if eqb n 5
    then "5"
    else if eqb n 6
    then "6"
    else if eqb n 7
    then "7"
    else if eqb n 8
    then "8"
    else "9"

decimal_fuel : ℕ → ℕ → String
unfolding digit
decimal_fuel zero n = ""
decimal_fuel (suc f) n =
    let longer = decimal_fuel f (n / 10) ++ digit (n % 10) in if ltb n 10 then digit n else longer

-- `%d`; every round divides by 10, so n + 1 rounds are enough
unfoldable pub decimal : ℕ → String
unfolding decimal_fuel
decimal n = decimal_fuel (suc n) n

pub strip_prefix-append : (p s : String) → strip_prefix p (p ++ s) ≡ some s
unfolding strip_prefix
strip_prefix-append [] s = ap some (nil-append s)
strip_prefix-append (c ∷ p) s = rw cons-append (ground (arith, strip_prefix-append p s))

pub append-strip_prefix : (p s r : String) → strip_prefix p s ≡ some r → s ≡ p ++ r
unfolding strip_prefix
append-strip_prefix [] s r h = rw nil-append (ground arith)
append-strip_prefix (c ∷ p) [] r h = ground arith
append-strip_prefix (c ∷ p) (d ∷ s) r h =
    rw cons-append (ground (arith, append-strip_prefix p s r, Char-path c d))
