-- ===== src/Msstd/Base64.antt =====
-- libs/msstd/string.c: the base64 codec. A read of a source behind its end is `none`. A byte is below
-- 256, and a cast to `unsigned char` is `% 256`.
pub mod Tables
pub mod RoundTrip
pub mod Hex
use Prim.Native.Nat.{bit_and, bit_or}
use build_project.Prelude.{
  ℕ, zero, suc, ◌+◌, ◌*◌, ◌/◌, ◌%◌, ◌==◌, Bool, true, false, Option, none, some, List, [], ◌∷◌,
  ◌++◌, get_or, Bytes, codes, if◌then◌else◌,
}

abbrev pub base64chars : Bytes
base64chars = codes "ABCDEFGHIJKLMNOPQRSTUVWXYZabcdefghijklmnopqrstuvwxyz0123456789+/"

abbrev pub char : ℕ → ℕ
char k = get_or base64chars k 0

-- The four values of `current`, and that of the second and the third where the source ends.
unfoldable pub first_six : ℕ → ℕ
first_six a = bit_and (a / 4) 0x3f

unfoldable pub second_six_last : ℕ → ℕ
second_six_last a = bit_and (a * 16 % 256) 0x30

unfoldable pub second_six : ℕ → ℕ → ℕ
unfolding second_six_last
second_six a b = bit_or (second_six_last a) (bit_and (b / 16) 0x0f)

unfoldable pub third_six_last : ℕ → ℕ
third_six_last b = bit_and (b * 4 % 256) 0x3c

unfoldable pub third_six : ℕ → ℕ → ℕ
unfolding third_six_last
third_six b c = bit_or (third_six_last b) (bit_and (c / 64) 0x03)

unfoldable pub fourth_six : ℕ → ℕ
fourth_six c = bit_and c 0x3f

-- The text of the four characters in front of the rest.
abbrev pub in_front : Bytes → Option Bytes → Option Bytes
in_front cs none = none
in_front cs (some rest) = some (cs ++ rest)

-- `len` bytes of `from`, three at a time.
unfoldable pub ms_base64_encode : Bytes → ℕ → Option Bytes
ms_base64_encode from zero = some []
ms_base64_encode [] (suc n) = none
ms_base64_encode (a ∷ from) (suc zero) =
    some (char (first_six a) ∷ char (second_six_last a) ∷ b'=' ∷ b'=' ∷ [])
ms_base64_encode (a ∷ []) (suc (suc n)) = none
ms_base64_encode (a ∷ b ∷ from) (suc (suc zero)) =
    some (char (first_six a) ∷ char (second_six a b) ∷ char (third_six_last b) ∷ b'=' ∷ [])
ms_base64_encode (a ∷ b ∷ []) (suc (suc (suc n))) = none
ms_base64_encode (a ∷ b ∷ c ∷ from) (suc (suc (suc n))) =
    in_front
      (char (first_six a) ∷ char (second_six a b) ∷ char (third_six b c) ∷ char (fourth_six c) ∷ [])
      (ms_base64_encode from n)

-- `for ( k = 0 ; k < 64 ; k ++ )`: the last place of a character, and `found` if it has none.
unfoldable pub place_of : Bytes → ℕ → ℕ → ℕ → ℕ
place_of [] k x found = found
place_of (c ∷ cs) k x found = place_of cs (k + 1) x (if c == x then k else found)

abbrev pub temp : ℕ → ℕ
temp x = place_of base64chars 0 x 0xff

unfoldable pub first_byte : ℕ → ℕ → ℕ
first_byte p q = bit_or (bit_and (p * 4 % 256) 0xfc) (bit_and (q / 16) 0x03)

unfoldable pub second_byte : ℕ → ℕ → ℕ
second_byte q r = bit_or (bit_and (q * 16 % 256) 0xf0) (bit_and (r / 4) 0x0f)

unfoldable pub third_byte : ℕ → ℕ → ℕ
third_byte r t = bit_or (bit_and (r * 64 % 256) 0xf0) (bit_and t 0x3f)

-- One group of four characters from the place `j` of a buffer of `size` bytes, and what comes behind
-- it. `j == bindata_len - 1` is never so if the size is 0.
unfoldable pub decode_group : ℕ → ℕ → ℕ → ℕ → ℕ → ℕ → Option Bytes → Option Bytes
decode_group a b c d j size rest =
    if j + 1 == size
    then some []
    else in_front (first_byte (temp a) (temp b) ∷ []) (
        if j + 2 == size
        then some []
        else if c == b'='
        then some []
        else in_front (second_byte (temp b) (temp c) ∷ []) (
            if j + 3 == size
            then some []
            else if d == b'='
            then some []
            else in_front (third_byte (temp c) (temp d) ∷ [])
                (if j + 4 == size then some [] else rest)))

-- The bytes that are written from the place `j` on; the code returns the place behind the last.
unfoldable pub ms_base64_decode : Bytes → ℕ → ℕ → Option Bytes
ms_base64_decode [] j size = some []
ms_base64_decode (a ∷ []) j size = none
ms_base64_decode (a ∷ b ∷ []) j size = none
ms_base64_decode (a ∷ b ∷ c ∷ []) j size = decode_group a b c 0 j size none
ms_base64_decode (a ∷ b ∷ c ∷ d ∷ s) j size =
    let rest = ms_base64_decode s (j + 3) size in decode_group a b c d j size rest
