-- ===== src/Msstd/Base64/Hex/Digits.antt =====
-- Base64to16 writes the digits of the bytes that were encoded.
use Prim.Native.Nat.{bit_and}
use build_project.Prelude.{
  ℕ, ◌+◌, ◌*◌, ◌/◌, ◌%◌, ◌<◌, ◌==◌, false, Bool-cases, ◌⊎◌, inl, inr, Option, some, [], ◌∷◌, length,
  Bytes, ◌≡◌, refl, sym, ◌∙◌, ap, arith,
}
use build_project.Msstd.Base64.{base64chars, char, place_of, ms_base64_encode}
use build_project.Msstd.Base64.Tables.{agree, six_table, or_four, temp-char, char_unpadded}
use build_project.Msstd.Base64.RoundTrip.{base64, AreBytes, ms_base64_encode-base64}
use build_project.Msstd.Base64.Hex.{digit, write_digits, written, to16_loop, base64to16}

-- Two digits of each byte.
abbrev pub hex : Bytes → Bytes
hex [] = []
hex (a ∷ s) = digit (a / 16) ∷ digit (a % 16) ∷ hex s

-- A character that the table has is found whatever was found before.
place_of-found :
    (cs : Bytes) (k x u v : ℕ) → (place_of cs k x u ≡ place_of cs k x v) ⊎ (place_of cs k x u ≡ u)
unfolding place_of
place_of-found [] k x u v = inr refl
place_of-found (c ∷ cs) k x u v = elim (Bool-cases (c == x)) [
  | inl e ↦ inl (rw (e) refl)
  | inr e ↦ rw (e) (place_of-found cs (k + 1) x u v)
]

place_of-char : (n v : ℕ) → n < 64 → place_of base64chars 0 (char n) v ≡ n
place_of-char n v lt = elim (place_of-found base64chars 0 (char n) 0xff v) [
  | inl e ↦ sym e ∙ temp-char n lt
  | inr e ↦ absurd (ground (arith, sym (temp-char n lt) ∙ e, lt))
]

low_two : (n : ℕ) → n < 64 → bit_and n 3 ≡ n % 4
unfolding agree
low_two n lt = six_table (λ n. bit_and n 3) (λ n. n % 4) refl n lt

low_four : (n : ℕ) → n < 64 → bit_and n 0xf ≡ n % 16
unfolding agree
low_four n lt = six_table (λ n. bit_and n 0xf) (λ n. n % 16) refl n lt

-- A round of the loop at a character of the table.
to16_loop-char :
    (n k v slop l : ℕ) (s : Bytes) (cs : Bytes) (k' slop' : ℕ)
    → n < 64
    → write_digits k n slop ≡ (cs, k', slop')
    → to16_loop (char n ∷ s) k v slop l ≡ written cs (to16_loop s k' n slop' (l + length cs))
unfolding to16_loop
to16_loop-char n k v slop l s cs k' slop' lt e =
    let other : (n == 64) ≡ false = ground (arith, lt) in
    rw (char_unpadded n lt, place_of-char n v lt, other, e) refl

-- The four rounds, over the values of the four characters of three bytes.
write_digits-first :
    (a slop : ℕ) → a < 256 → write_digits 0 (a / 4) slop ≡ (digit (a / 16) ∷ [], 1, a / 4 % 4)
unfolding write_digits
write_digits-first a slop lt =
    let up : a / 4 / 4 ≡ a / 16 = omega arith in rw (low_two (a / 4) (omega arith), up) refl

write_digits-second :
    (a b q : ℕ)
    → a < 256
    → b < 16
    → q ≡ a % 4 * 16 + b
    → write_digits 1 q (a / 4 % 4) ≡ (digit (a % 16) ∷ [], 2, b)
unfolding write_digits
write_digits-second a b q la lb e =
    let below : q < 64 = omega arith in
    let top : q / 16 < 4 = omega arith in
    let value : a / 4 % 4 * 4 + q / 16 ≡ a % 16 = omega arith in
    let left : q % 16 ≡ b = omega arith in
    rw (low_four q below, or_four (a / 4 % 4) (q / 16) (omega arith) top, value, left) refl

write_digits-third :
    (b c q : ℕ)
    → b < 256
    → c < 4
    → q ≡ b % 16 * 4 + c
    → write_digits 2 q (b / 16) ≡ (digit (b / 16) ∷ digit (b % 16) ∷ [], 3, c)
unfolding write_digits
write_digits-third b c q lb lc e =
    let below : q < 64 = omega arith in
    let value : q / 4 ≡ b % 16 = omega arith in
    let left : q % 4 ≡ c = omega arith in rw (low_two q below, value, left) refl

write_digits-fourth :
    (c : ℕ)
    → c < 256
    → write_digits 3 (c % 64) (c / 64) ≡ (digit (c / 16) ∷ digit (c % 16) ∷ [], 0, c / 64)
unfolding write_digits
write_digits-fourth c lt =
    let below : c % 64 < 64 = omega arith in
    let top : c % 64 / 16 < 4 = omega arith in
    let value : c / 64 * 4 + c % 64 / 16 ≡ c / 16 = omega arith in
    let left : c % 64 % 16 ≡ c % 16 = omega arith in
    rw (low_four (c % 64) below, or_four (c / 64) (c % 64 / 16) (omega arith) top, value, left) refl

-- The first two characters, and the third.
to16_loop-two :
    (a b q v slop l : ℕ) (s : Bytes)
    → a < 256
    → b < 16
    → q ≡ a % 4 * 16 + b
    → to16_loop (char (a / 4) ∷ char q ∷ s) 0 v slop l
      ≡ written
          (digit (a / 16) ∷ [])
          (written (digit (a % 16) ∷ []) (to16_loop s 2 q b (l + 1 + 1)))
to16_loop-two a b q v slop l s la lb e =
    to16_loop-char (a / 4) 0 v slop l (char q ∷ s) _ _ _ (omega arith)
      (write_digits-first a slop la)
    ∙ ap (written (digit (a / 16) ∷ [])) (
        to16_loop-char q 1 (a / 4) (a / 4 % 4) (l + 1) s _ _ _ (omega arith)
          (write_digits-second a b q la lb e))

to16_loop-padded :
    (k v slop l : ℕ) (s : Bytes) → (k == 1) ≡ false → to16_loop (b'=' ∷ s) k v slop l ≡ some ([], l)
unfolding to16_loop
to16_loop-padded k v slop l s e = rw (e) refl

at_place : (s : Bytes) (l m : ℕ) → l ≡ m → ◌≡◌ {A = Option (Bytes × ℕ)} (some (s, l)) (some (s, m))
at_place s l m e = ap (λ n. some (s, n)) e

-- The third character of a group, from a group of two bytes or of three.
to16_loop-three :
    (b c q p v l : ℕ) (s : Bytes)
    → b < 256
    → c < 4
    → p ≡ b / 16
    → q ≡ b % 16 * 4 + c
    → to16_loop (char q ∷ s) 2 v p l
      ≡ written (digit (b / 16) ∷ digit (b % 16) ∷ []) (to16_loop s 3 q c (l + 2))
to16_loop-three b c q p v l s lb lc e f =
    ap (λ p. to16_loop (char q ∷ s) 2 v p l) e
    ∙ to16_loop-char q 2 v (b / 16) l s _ _ _ (omega arith) (write_digits-third b c q lb lc f)

to16_loop-base64 :
    (s : Bytes) (v slop l : ℕ)
    → AreBytes s
    → to16_loop (base64 s) 0 v slop l ≡ some (hex s, l + 2 * length s)
unfolding to16_loop
to16_loop-base64 [] v slop l h = at_place [] l (l + 0) (omega arith)
to16_loop-base64 (a ∷ []) v slop l h =
    to16_loop-two a 0 (a % 4 * 16) v slop l (b'=' ∷ b'=' ∷ []) h.0 (omega arith) (omega arith)
    ∙ at_place (hex (a ∷ [])) (l + 1 + 1) (l + 2) (omega arith)
to16_loop-base64 (a ∷ b ∷ []) v slop l h =
    to16_loop-two a (b / 16) (a % 4 * 16 + b / 16) v slop l (char (b % 16 * 4) ∷ b'=' ∷ []) h.0
      (omega arith) refl
    ∙ ap (λ r. written (digit (a / 16) ∷ []) (written (digit (a % 16) ∷ []) r))
        (to16_loop-three b 0 (b % 16 * 4) (b / 16) (a % 4 * 16 + b / 16) (l + 1 + 1) (b'=' ∷ [])
          h.1.0 (omega arith) refl (omega arith))
    ∙ at_place (hex (a ∷ b ∷ [])) (l + 1 + 1 + 2) (l + 4) (omega arith)
to16_loop-base64 (a ∷ b ∷ c ∷ s) v slop l h =
    to16_loop-two a (b / 16) (a % 4 * 16 + b / 16) v slop l
      (char (b % 16 * 4 + c / 64) ∷ char (c % 64) ∷ base64 s) h.0 (omega arith) refl
    ∙ ap (λ r. written (digit (a / 16) ∷ []) (written (digit (a % 16) ∷ []) r))
        (to16_loop-three b (c / 64) (b % 16 * 4 + c / 64) (b / 16) (a % 4 * 16 + b / 16) (l + 1 + 1)
            (char (c % 64) ∷ base64 s) h.1.0 (omega arith) refl refl
          ∙ ap (written (digit (b / 16) ∷ digit (b % 16) ∷ [])) (
              to16_loop-char (c % 64) 3 (b % 16 * 4 + c / 64) (c / 64) (l + 1 + 1 + 2) (base64 s) _
                _ _ (omega arith) (write_digits-fourth c h.1.1.0)
              ∙ ap (written (digit (c / 16) ∷ digit (c % 16) ∷ []))
                  (to16_loop-base64 s (c % 64) (c / 64) (l + 1 + 1 + 2 + 2) h.1.1.1)))
    ∙ at_place (hex (a ∷ b ∷ c ∷ s)) (l + 1 + 1 + 2 + 2 + 2 * length s)
        (l + 2 * length (a ∷ b ∷ c ∷ s)) (omega arith)

-- Base64to16 turns what ms_base64_encode writes of bytes into two digits of each byte, and returns the
-- number of digits.
pub base64to16-ms_base64_encode :
    (s : Bytes)
    → AreBytes s
    → (t : Bytes) × (ms_base64_encode s (length s) ≡ some t)
      × (base64to16 t ≡ some (hex s, 2 * length s))
base64to16-ms_base64_encode s h = (
  base64 s,
  ms_base64_encode-base64 s h,
  to16_loop-base64 s 64 0 0 h ∙ at_place (hex s) (0 + 2 * length s) (2 * length s) (omega arith),
)
