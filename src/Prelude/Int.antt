-- ===== src/Prelude/Int.antt =====
-- Go's `int` as an integer, under the library's names (its ℤ stands on the unary ℕ); `wrap_int` wraps
-- around where the bounds of 64 bits count.
use Prim.Native.Nat.{ℕ, zero, suc}
use mathlib.Core.Bool.{Bool, true, false}
use Prim.Native.Nat.{◌-◌, ◌*◌, ◌%◌, ◌<◌, ◌^◌}
use mathlib.Core.Path.{◌≡◌, refl}
use native.Mathlib.Omega.{arith}
use galdor.Prelude.Tests.{leb, ltb, if◌then◌else◌}

-- `negsuc n` is -(n + 1).
pub data ℤ : Type 0 where
  pos : ℕ → ℤ
  negsuc : ℕ → ℤ

-- `n + 1`.
unfoldable pub suc_ℤ : ℤ → ℤ
suc_ℤ (pos n) = pos (suc n)
suc_ℤ (negsuc zero) = pos 0
suc_ℤ (negsuc (suc n)) = negsuc n

-- `n - 1`.
unfoldable pub pred_ℤ : ℤ → ℤ
pred_ℤ (pos zero) = negsuc 0
pred_ℤ (pos (suc n)) = pos n
pred_ℤ (negsuc n) = negsuc (suc n)

-- `n > 0`.
abbrev pub is_positive : ℤ → Bool
is_positive (pos (suc n)) = true
is_positive _ = false

-- `n >= limit`.
abbrev pub reaches : ℕ → ℤ → Bool
reaches limit (pos n) = leb limit n
reaches limit (negsuc n) = false

-- The numbers that an `int` of 64 bits holds.
abbrev pub int_bound : ℕ
int_bound = 2 ^ 63

abbrev pub FitsInt : ℕ → Type 0
FitsInt n = n < int_bound

-- A sum or product of natural numbers as Go computes it, wrapped around at 64 bits.
unfoldable pub wrap_int : ℕ → ℤ
wrap_int n =
    let low = n % (2 * int_bound) in
    if ltb low int_bound then pos low else negsuc (2 * int_bound - 1 - low)

pub wrap_int-pos : (n : ℕ) → FitsInt n → wrap_int n ≡ pos n
unfolding wrap_int
wrap_int-pos n h =
    let whole : n % (2 * int_bound) ≡ n = omega arith in
    let small : ltb n int_bound ≡ true = ground arith in rw (whole, small) refl
