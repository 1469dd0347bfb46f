-- ===== src/Base/Int.antt =====
-- Signed integers, and `float64` amounts of money as integers in millionths.
use Prim.Native.Nat.{ℕ, suc, ◌-◌, ◌/◌, ◌%◌, ◌^◌}
use mathlib.Core.Bool.{Bool, false}
use mathlib.Core.Option.{Option, none, some}
use k8s_runpod_kubelet.Base.Tests.{if◌then◌else◌, eqb, ltb, leb}

-- `negsuc n` is -(n + 1).
pub data ℤ : Type 0 where
  pos : ℕ → ℤ
  negsuc : ℕ → ℤ

-- A float64 that the program only passes on or compares: so many millionths.
abbrev pub Float : Type 0
Float = ℤ

abbrev pub millionths : ℕ
millionths = 1000000

-- The integer that so many millionths are, if they are one and it fits an int64.
unfoldable pub to_int64 : ℤ → Option ℤ
to_int64 (pos n) =
    if eqb (n % millionths) 0
    then (if ltb (n / millionths) (2 ^ 63) then some (pos (n / millionths)) else none)
    else none
to_int64 (negsuc n) =
    if eqb (suc n % millionths) 0
    then (if leb (suc n / millionths) (2 ^ 63)
        then some (negsuc (suc n / millionths - 1))
        else none)
    else none

-- int32(n), which keeps the low 32 bits
unfoldable pub to_int32 : ℤ → ℤ
to_int32 (pos n) =
    let low = n % 2 ^ 32 in if ltb low (2 ^ 31) then pos low else negsuc (2 ^ 32 - 1 - low)
to_int32 (negsuc n) =
    let low = n % 2 ^ 32 in if ltb low (2 ^ 31) then negsuc low else pos (2 ^ 32 - 1 - low)

-- the value of an int64 computation, which keeps the low 64 bits
unfoldable pub wrap_int64 : ℤ → ℤ
wrap_int64 (pos n) =
    let low = n % 2 ^ 64 in if ltb low (2 ^ 63) then pos low else negsuc (2 ^ 64 - 1 - low)
wrap_int64 (negsuc n) =
    let low = n % 2 ^ 64 in if ltb low (2 ^ 63) then negsuc low else pos (2 ^ 64 - 1 - low)

abbrev pub is_positive : ℤ → Bool
is_positive (pos n) = ltb 0 n
is_positive (negsuc n) = false

abbrev pub is_zero : ℤ → Bool
is_zero (pos n) = eqb n 0
is_zero (negsuc n) = false
