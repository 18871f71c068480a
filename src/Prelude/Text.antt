-- ===== src/Prelude/Text.antt =====
-- C strings as lists of bytes, without the NUL that ends them, and what `snprintf` makes of them.
use Prim.Native.Nat.{ℕ, zero, suc, ◌+◌, ◌-◌, ◌/◌, ◌%◌, ◌<◌, ◌≤◌}
use Prim.Native.Char.{code}
use Prim.Native.String.{String}
use mathlib.Core.Path.{◌≡◌}
use mathlib.Core.List.{List, [], ◌∷◌}
use native.Mathlib.Omega.{arith}
use build_project.Prelude.Tests.{ltb, if◌then◌else◌}
use build_project.Prelude.Lists.{length, length-take, take, take_all}
use build_project.Prelude.Int.{ℤ, pos, negsuc}

abbrev pub Bytes : Type 0
Bytes = List ℕ

-- The bytes of an ASCII literal.
abbrev pub codes : String → Bytes
codes String.[] = []
codes (String.◌∷◌ c s) = code c ∷ codes s

-- The decimal digits of `n`, for `n` below 10 ^ (fuel + 1), in front of `rest`.
dec_digits : ℕ → ℕ → Bytes → Bytes
dec_digits zero n rest = (b'0' + n % 10) ∷ rest
dec_digits (suc fuel) n rest =
    let more = dec_digits fuel (n / 10) ((b'0' + n % 10) ∷ rest) in
    if ltb n 10 then (b'0' + n) ∷ rest else more

-- `%d` of an int, whose magnitude is below 10 ^ 10.
unfoldable pub fmt_d : ℤ → Bytes
unfolding dec_digits
fmt_d (pos n) = dec_digits 9 n []
fmt_d (negsuc n) = b'-' ∷ dec_digits 9 (n + 1) []

-- What `snprintf(buf, size, ...)` leaves in `buf`: the text, cut to `size - 1` bytes.
unfoldable pub snprintf : ℕ → Bytes → Bytes
snprintf size text = take (size - 1) text

length-dec_digits :
    (fuel n : ℕ) (rest : Bytes) → length (dec_digits fuel n rest) ≤ length rest + fuel + 1
unfolding dec_digits
length-dec_digits zero n rest = omega arith
length-dec_digits (suc fuel) n rest =
    ground (arith, length-dec_digits fuel (n / 10) ((b'0' + n % 10) ∷ rest))

-- `%d` writes at most 11 bytes.
pub length-fmt_d : (z : ℤ) → length (fmt_d z) ≤ 11
unfolding fmt_d
length-fmt_d (pos n) = omega (arith, length-dec_digits 9 n [])
length-fmt_d (negsuc n) = omega (arith, length-dec_digits 9 (n + 1) [])

-- A text with room for its NUL is not cut.
pub snprintf_fits : (size : ℕ) (text : Bytes) → length text < size → snprintf size text ≡ text
unfolding snprintf
snprintf_fits size text h = take_all (size - 1) text (omega arith)

pub length-snprintf : (size : ℕ) (text : Bytes) → 0 < size → length (snprintf size text) < size
unfolding snprintf
length-snprintf size text h = omega (arith, length-take (size - 1) text)
