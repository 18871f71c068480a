-- ===== src/Msstd/Base64/Hex.antt =====
-- libs/msstd/string.c: Base64to16, from base64 to hexadecimal digits. The code reads `v` before it has
-- a value if the text starts with another character; the model has 64 for that, and faults. A `v` that
-- has one is never negative, so that the test for it does nothing.
pub mod Digits
use Prim.Native.Nat.{bit_and, bit_or}
use build_project.Prelude.{
  ℕ, zero, suc, ◌+◌, ◌*◌, ◌/◌, ◌==◌, Option, none, some, List, [], ◌∷◌, ◌++◌, length, get_or, Bytes,
  codes, if◌then◌else◌,
}
use build_project.Msstd.Base64.{base64chars, place_of}

abbrev pub bi_rm : Bytes
bi_rm = codes "0123456789abcdefghijklmnopqrstuvwxyz"

abbrev pub digit : ℕ → ℕ
digit k = get_or bi_rm k 0

-- What a character of the value `v` writes in the state `k`, and the next `k` and `slop`.
unfoldable pub write_digits : ℕ → ℕ → ℕ → Bytes × ℕ × ℕ
write_digits zero v slop = (digit (v / 4) ∷ [], 1, bit_and v 3)
write_digits (suc zero) v slop = (digit (bit_or (slop * 4) (v / 16)) ∷ [], 2, bit_and v 0xf)
write_digits (suc (suc zero)) v slop = (digit slop ∷ digit (v / 4) ∷ [], 3, bit_and v 3)
write_digits (suc (suc (suc n))) v slop =
    (digit (bit_or (slop * 4) (v / 16)) ∷ digit (bit_and v 0xf) ∷ [], 0, slop)

-- The digit behind the loop, which the number that is returned does not count.
abbrev pub last_digit : ℕ → ℕ → Bytes
last_digit k slop = if k == 1 then digit (slop * 4) ∷ [] else []

abbrev pub written : Bytes → Option (Bytes × ℕ) → Option (Bytes × ℕ)
written cs none = none
written cs (some (rest, l)) = some (cs ++ rest, l)

-- What is written from the place `l` on, and the last `l`.
unfoldable pub to16_loop : Bytes → ℕ → ℕ → ℕ → ℕ → Option (Bytes × ℕ)
to16_loop [] k v slop l = some (last_digit k slop, l)
to16_loop (c ∷ s) k v slop l =
    let found = place_of base64chars 0 c v in
    let round = write_digits k found slop in
    let rest = to16_loop s round.1 found round.2 (l + length round.0) in
    if c == b'='
    then some (last_digit k slop, l)
    else if found == 64
    then none
    else written round.0 rest

abbrev pub base64to16 : Bytes → Option (Bytes × ℕ)
base64to16 s = to16_loop s 0 64 0 0
