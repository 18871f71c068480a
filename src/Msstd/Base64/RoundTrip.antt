-- ===== src/Msstd/Base64/RoundTrip.antt =====
-- ms_base64_decode gives back what ms_base64_encode wrote, as far as the buffer goes.
use build_project.Prelude.{
  ℕ, zero, suc, ◌+◌, ◌*◌, ◌/◌, ◌%◌, ◌<◌, ◌==◌, false, Option, some, [], ◌∷◌, All, take, length,
  Bytes, ◌≡◌, refl, ◌∙◌, ap, arith,
}
use build_project.Msstd.Base64.{
  char, temp, first_byte, second_byte, third_byte, ms_base64_encode, decode_group, ms_base64_decode,
}
use build_project.Msstd.Base64.Tables.{
  temp-char, char_unpadded, first_six_lem, second_six_last_lem, second_six_lem, third_six_last_lem,
  third_six_lem, fourth_six_lem, first_byte_lem, second_byte_lem, third_byte_lem,
}

-- A character of the value `n` and what the decoder makes of it.
temp_of : (n k : ℕ) → n ≡ k → k < 64 → temp (char n) ≡ k
temp_of n k e lt = ap (λ m. temp (char m)) e ∙ temp-char k lt

first_byte-six :
    (a q b : ℕ)
    → a < 256
    → b < 16
    → q ≡ a % 4 * 16 + b
    → first_byte (temp (char (a / 4))) (temp (char q)) ≡ a
first_byte-six a q b la lb e =
    rw
      (
        temp_of (a / 4) (a / 4) refl (omega arith),
        temp_of q (a % 4 * 16 + b) e (omega arith),
        first_byte_lem (a / 4) (a % 4 * 16 + b) (omega arith) (omega arith),
      )
      (omega arith)

second_byte-six :
    (a b q r c : ℕ)
    → b < 256
    → c < 4
    → q ≡ a % 4 * 16 + b / 16
    → r ≡ b % 16 * 4 + c
    → second_byte (temp (char q)) (temp (char r)) ≡ b
second_byte-six a b q r c lb lc e f =
    rw
      (
        temp_of q (a % 4 * 16 + b / 16) e (omega arith),
        temp_of r (b % 16 * 4 + c) f (omega arith),
        second_byte_lem (a % 4 * 16 + b / 16) (b % 16 * 4 + c) (omega arith) (omega arith),
      )
      (omega arith)

third_byte-six :
    (b c r t : ℕ)
    → c < 256
    → r ≡ b % 16 * 4 + c / 64
    → t ≡ c % 64
    → third_byte (temp (char r)) (temp (char t)) ≡ c
third_byte-six b c r t lc e f =
    rw
      (
        temp_of r (b % 16 * 4 + c / 64) e (omega arith),
        temp_of t (c % 64) f (omega arith),
        third_byte_lem (b % 16 * 4 + c / 64) (c % 64) (omega arith) (omega arith),
      )
      (omega arith)

-- The groups: one byte, two bytes, and three bytes in front of the rest.
decode_group-one :
    (a b x j k : ℕ) (rest : Option Bytes)
    → first_byte (temp a) (temp b) ≡ x
    → decode_group a b b'=' b'=' j (suc (j + k)) rest ≡ some (take k (x ∷ []))
unfolding decode_group
decode_group-one a b x j zero rest e = ground (arith)
decode_group-one a b x j (suc zero) rest e = ground (arith, e)
decode_group-one a b x j (suc (suc k)) rest e = ground (arith, e)

decode_group-two :
    (a b c x y j k : ℕ) (rest : Option Bytes)
    → first_byte (temp a) (temp b) ≡ x
    → second_byte (temp b) (temp c) ≡ y
    → (c == b'=') ≡ false
    → decode_group a b c b'=' j (suc (j + k)) rest ≡ some (take k (x ∷ y ∷ []))
unfolding decode_group
decode_group-two a b c x y j zero rest e f nc = ground (arith)
decode_group-two a b c x y j (suc zero) rest e f nc = ground (arith, e)
decode_group-two a b c x y j (suc (suc zero)) rest e f nc = ground (arith, e, f, nc)
decode_group-two a b c x y j (suc (suc (suc k))) rest e f nc = ground (arith, e, f, nc)

decode_group-three :
    (a b c d x y z j k : ℕ) (s : Bytes) (rest : Option Bytes)
    → first_byte (temp a) (temp b) ≡ x
    → second_byte (temp b) (temp c) ≡ y
    → third_byte (temp c) (temp d) ≡ z
    → (c == b'=') ≡ false
    → (d == b'=') ≡ false
    → ((n : ℕ) → k ≡ n + 3 → rest ≡ some (take n s))
    → decode_group a b c d j (suc (j + k)) rest ≡ some (take k (x ∷ y ∷ z ∷ s))
unfolding decode_group
decode_group-three a b c d x y z j zero s rest e f g nc nd more = ground (arith)
decode_group-three a b c d x y z j (suc zero) s rest e f g nc nd more = ground (arith, e)
decode_group-three a b c d x y z j (suc (suc zero)) s rest e f g nc nd more =
    ground (arith, e, f, nc)
decode_group-three a b c d x y z j (suc (suc (suc zero))) s rest e f g nc nd more =
    ground (arith, e, f, g, nc, nd)
decode_group-three a b c d x y z j (suc (suc (suc (suc k)))) s rest e f g nc nd more =
    ground (arith, e, f, g, nc, nd, more (suc k) (omega arith))

-- The text that base64 is: 24 bits as four digits of 6, with padding for the bytes that are missing.
abbrev pub base64 : Bytes → Bytes
base64 [] = []
base64 (a ∷ []) = char (a / 4) ∷ char (a % 4 * 16) ∷ b'=' ∷ b'=' ∷ []
base64 (a ∷ b ∷ []) = char (a / 4) ∷ char (a % 4 * 16 + b / 16) ∷ char (b % 16 * 4) ∷ b'=' ∷ []
base64 (a ∷ b ∷ c ∷ s) =
    char (a / 4)
    ∷ char (a % 4 * 16 + b / 16)
    ∷ char (b % 16 * 4 + c / 64)
    ∷ char (c % 64)
    ∷ base64 s

abbrev pub AreBytes : Bytes → Type 0
AreBytes s = All (λ x. x < 256) s

-- The code writes the base64 text of all bytes of the source.
pub ms_base64_encode-base64 :
    (s : Bytes) → AreBytes s → ms_base64_encode s (length s) ≡ some (base64 s)
unfolding ms_base64_encode
ms_base64_encode-base64 [] h = refl
ms_base64_encode-base64 (a ∷ []) h = rw (first_six_lem a h.0, second_six_last_lem a h.0) refl
ms_base64_encode-base64 (a ∷ b ∷ []) h =
    rw (first_six_lem a h.0, second_six_lem a b h.0 h.1.0, third_six_last_lem b h.1.0) refl
ms_base64_encode-base64 (a ∷ b ∷ c ∷ s) h =
    rw
      (
        first_six_lem a h.0,
        second_six_lem a b h.0 h.1.0,
        third_six_lem b c h.1.0 h.1.1.0,
        fourth_six_lem c h.1.1.0,
        ms_base64_encode-base64 s h.1.1.1,
      )
      refl

decode-base64 :
    (s : Bytes) (j k : ℕ)
    → AreBytes s
    → ms_base64_decode (base64 s) j (suc (j + k)) ≡ some (take k s)
unfolding ms_base64_decode
decode-base64 [] j zero h = refl
decode-base64 [] j (suc k) h = refl
decode-base64 (a ∷ []) j k h =
    decode_group-one _ _ a j k _ (first_byte-six a (a % 4 * 16) 0 h.0 (omega arith) (omega arith))
decode-base64 (a ∷ b ∷ []) j k h =
    decode_group-two _ _ _ a b j k _
      (first_byte-six a (a % 4 * 16 + b / 16) (b / 16) h.0 (omega arith) refl)
      (second_byte-six a b _ (b % 16 * 4) 0 h.1.0 (omega arith) refl (omega arith))
      (char_unpadded (b % 16 * 4) (omega arith))
decode-base64 (a ∷ b ∷ c ∷ s) j k h =
    decode_group-three _ _ _ _ a b c j k s _
      (first_byte-six a (a % 4 * 16 + b / 16) (b / 16) h.0 (omega arith) refl)
      (second_byte-six a b _ (b % 16 * 4 + c / 64) (c / 64) h.1.0 (omega arith) refl refl)
      (third_byte-six b c (b % 16 * 4 + c / 64) (c % 64) h.1.1.0 refl refl)
      (char_unpadded (b % 16 * 4 + c / 64) (omega arith)) (char_unpadded (c % 64) (omega arith))
      (λ n e.
        ap (λ m. ms_base64_decode (base64 s) (j + 3) (suc m)) (omega arith)
        ∙ decode-base64 s (j + 3) n h.1.1.1)

-- Into a buffer with room for `size` bytes and one more the decoder writes the first `size` bytes of
-- what was encoded, all of them if there are no more.
pub ms_base64_decode-ms_base64_encode :
    (s : Bytes) (size : ℕ)
    → AreBytes s
    → (text : Bytes) × (ms_base64_encode s (length s) ≡ some text)
      × (ms_base64_decode text 0 (size + 1) ≡ some (take size s))
ms_base64_decode-ms_base64_encode s size h = (
  base64 s,
  ms_base64_encode-base64 s h,
  ap (ms_base64_decode (base64 s) 0) (omega arith) ∙ decode-base64 s 0 size h,
)
