-- ===== src/Prelude/Integers.antt =====
-- Signed 64-bit numbers as whole numbers, their order, and `strconv.Atoi`.
use Prim.Native.Nat.{ℕ, zero, suc, ◌+◌, ◌-◌, ◌*◌, ◌%◌, ◌≤◌, ◌^◌}
use Prim.Native.Char.{code}
use Prim.Native.String.{String}
use mathlib.Core.Bool.{Bool, true, false}
use mathlib.Core.Path.{◌≡◌}
use native.Mathlib.Omega.{arith}
use mathlib.Core.Option.{Option, none, some}
use remnaguard.Prelude.Tests.{leb, ltb, if◌then◌else◌}
use remnaguard.Prelude.Text.{between}

-- `negsuc n` is -(n + 1).
pub data ℤ : Type 0 where
  pos : ℕ → ℤ
  negsuc : ℕ → ℤ

abbrev pub is_positive : ℤ → Bool
is_positive (pos n) = ltb 0 n
is_positive (negsuc n) = false

abbrev pub lebℤ : ℤ → ℤ → Bool
lebℤ (pos a) (pos b) = leb a b
lebℤ (pos a) (negsuc b) = false
lebℤ (negsuc a) (pos b) = true
lebℤ (negsuc a) (negsuc b) = leb b a

unfoldable pub decimal : ℕ → String → Option ℕ
decimal acc String.[] = some acc
decimal acc (String.◌∷◌ c s) =
    let rest = decimal (acc * 10 + (code c - b'0')) s in
    if between b'0' b'9' (code c) then rest else none

-- The int64 that a whole number of 64 bits stands for, as a sum or a product of ints wraps around to it.
unfoldable pub wrap_int : ℕ → ℤ
wrap_int n = let m = n % 2 ^ 64 in if ltb m (2 ^ 63) then pos m else negsuc (2 ^ 64 - 1 - m)

-- A whole number modulo 2 ^ 64.
abbrev pub residue : ℤ → ℕ
residue (pos n) = n % 2 ^ 64
residue (negsuc n) = 2 ^ 64 - 1 - n % 2 ^ 64

-- a - b of int64s
unfoldable pub sub_int : ℤ → ℤ → ℤ
unfolding wrap_int
sub_int a b = wrap_int (residue a + (2 ^ 64 - residue b))

-- A difference within bounds that is not negative is one, or is smaller when it wraps around.
pub sub_int_le : (a b n : ℕ) → b ≤ a → a ≤ b + n → lebℤ (sub_int (pos a) (pos b)) (pos n) ≡ true
unfolding sub_int wrap_int
sub_int_le a b n h k = ground (arith, h, k)

-- At least one digit, and digits only.
unfoldable pub digits : String → Option ℕ
unfolding decimal
digits String.[] = none
digits (String.◌∷◌ c s) = decimal 0 (String.◌∷◌ c s)

abbrev within_int64 : Bool → Option ℕ → Option ℤ
within_int64 negative none = none
within_int64 false (some n) = if ltb n (2 ^ 63) then some (pos n) else none
within_int64 true (some zero) = some (pos 0)
within_int64 true (some (suc n)) = if ltb n (2 ^ 63) then some (negsuc n) else none

-- strconv.Atoi on a 64-bit platform; `none` is its error
unfoldable pub atoi : String → Option ℤ
unfolding digits
atoi String.[] = none
atoi (String.◌∷◌ c s) =
    if between b'-' b'-' (code c)
    then within_int64 true (digits s)
    else if between b'+' b'+' (code c)
    then within_int64 false (digits s)
    else within_int64 false (digits (String.◌∷◌ c s))
