-- ===== src/Msstd/Bits.antt =====
-- libs/msstd/bit_ex.c: single bits of a 64-bit number. A shift by 64 or more is undefined in C, `none`.
-- `(long long)1 << 63` and `~(long long)0 << n` are what the compilers make of them.
pub mod Digits
pub mod Set
use Prim.Native.Nat.{bit_and, bit_or}
use build_project.Prelude.{
  ℕ, ◌+◌, ◌-◌, ◌/◌, ◌^◌, ◌==◌, leb, ℤ, pos, negsuc, minus_one, Bool, ◌||◌, Option, none, some,
  if◌then◌else◌,
}

unfoldable pub ms_get_bit : ℕ → ℤ → Option ℤ
ms_get_bit value (negsuc k) = some minus_one
ms_get_bit value (pos p) =
    if leb 64 p then none else some (if bit_and (value / 2 ^ p) 1 == 0 then pos 0 else pos 1)

-- The answer, and the number behind the pointer.
unfoldable pub ms_set_bit : ℕ → ℤ → Bool → Option (ℤ × ℕ)
ms_set_bit value (negsuc k) on = some (minus_one, value)
ms_set_bit value (pos p) on =
    if leb 64 p
    then none
    else some (pos 0, if on then bit_or value (2 ^ p) else bit_and value (2 ^ 64 - 1 - 2 ^ p))

unfoldable pub ms_get_bits : ℕ → ℤ → ℤ → Option ℕ
ms_get_bits value (negsuc k) n = some 0
ms_get_bits value (pos p) (negsuc k) = some 0
ms_get_bits value (pos p) (pos n) =
    if leb 64 p || leb 64 n then none else some (bit_and (value / 2 ^ p) (2 ^ n - 1))
