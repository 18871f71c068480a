-- ===== src/Msdb/Quote.antt =====
-- Text inside a quoted SQL literal: translate_pwd, and the loop of write_osd that doubles quotes.
pub mod Literal
use build_project.Prelude.{
  Option, none, some, ℕ, zero, suc, ◌+◌, List, [], ◌∷◌, Bytes, length, ◌==◌, if◌then◌else◌,
}

abbrev pub quote : ℕ
quote = b'\''

-- The loop of write_osd over `osdNameStr`.
unfoldable pub double_quotes : Bytes → Bytes
double_quotes [] = []
double_quotes (c ∷ s) =
    let rest = double_quotes s in if c == quote then quote ∷ quote ∷ rest else c ∷ rest

-- The bytes that a round writes in front of those of the others.
abbrev pub put_byte : ℕ → Option (Bytes × ℕ) → Option (Bytes × ℕ)
put_byte c none = none
put_byte c (some (dst, n)) =
    if c == quote then some (quote ∷ quote ∷ dst, n + 2) else some (c ∷ dst, n + 1)

-- `while (b < len)`, with `left` rounds to go, from `src + b` on: the bytes that go to `dst`, and their
-- count. `src` is the whole array, and a read behind its end is `none`.
unfoldable pub translate_loop : ℕ → Bytes → Option (Bytes × ℕ)
translate_loop zero src = some ([], 0)
translate_loop (suc left) [] = none
translate_loop (suc left) (c ∷ src) = put_byte c (translate_loop left src)

-- With the NUL that goes behind the loop.
abbrev pub with_nul : Option (Bytes × ℕ) → Option (Bytes × ℕ)
with_nul none = none
with_nul (some (dst, n)) = some (dst, n + 1)

-- translate_pwd: the bytes that it writes to `dst` in front of a NUL, and the count with it.
unfoldable pub translate_pwd : Bytes → ℕ → Option (Bytes × ℕ)
translate_pwd src len = with_nul (translate_loop len src)
