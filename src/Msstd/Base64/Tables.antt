-- ===== src/Msstd/Base64/Tables.antt =====
-- The bit operations of the base64 codec as arithmetic, over the values that they meet.
use Prim.Native.Nat.{bit_and, bit_or}
use build_project.Prelude.{
  ℕ, zero, suc, ◌+◌, ◌*◌, ◌/◌, ◌%◌, ◌<◌, ◌==◌, Bool, true, false, if◌then◌else◌, Bool-cases, inl,
  inr, ◌≡◌, refl, sym, ◌∙◌, ap, arith,
}
use build_project.Msstd.Base64.{
  char, temp, place_of, first_six, second_six_last, second_six, third_six_last, third_six,
  fourth_six, first_byte, second_byte, third_byte,
}

-- Two functions have the same values below a bound, tested one by one.
unfoldable pub agree : (ℕ → ℕ) → (ℕ → ℕ) → ℕ → Bool
agree f g zero = true
agree f g (suc bound) = if f bound == g bound then agree f g bound else false

split_if : (b c : Bool) → (if b then c else false) ≡ true → (b ≡ true) × (c ≡ true)
split_if true c h = (refl, h)
split_if false c h = absurd (ground (arith, h))

agree-at : (f g : ℕ → ℕ) (bound : ℕ) → agree f g bound ≡ true → (x : ℕ) → x < bound → f x ≡ g x
unfolding agree
agree-at f g zero tested x lt = absurd (omega arith)
agree-at f g (suc bound) tested x lt =
    let (here, below) = split_if (f bound == g bound) (agree f g bound) tested in
    elim (Bool-cases (x == bound)) [
      | inl e ↦
          let same : x ≡ bound = ground (arith, e) in
          ap f same ∙ ground (arith, here) ∙ ap g (sym same)
      | inr e ↦ agree-at f g bound below x (ground (arith, e, lt))
    ]

byte_table : (f g : ℕ → ℕ) → agree f g 256 ≡ true → (x : ℕ) → x < 256 → f x ≡ g x
byte_table f g tested x lt = agree-at f g 256 tested x lt

pub six_table : (f g : ℕ → ℕ) → agree f g 64 ≡ true → (x : ℕ) → x < 64 → f x ≡ g x
six_table f g tested x lt = agree-at f g 64 tested x lt

-- The decoder finds the place of each character, and none of them is the padding.
pub temp-char : (k : ℕ) → k < 64 → temp (char k) ≡ k
unfolding agree place_of
temp-char k lt = six_table (λ k. temp (char k)) (λ k. k) refl k lt

pub char_unpadded : (k : ℕ) → k < 64 → (char k == b'=') ≡ false
unfolding agree
char_unpadded k lt =
    ground (arith, six_table (λ k. if char k == b'=' then 1 else 0) (λ k. 0) refl k lt)

pub first_six_lem : (a : ℕ) → a < 256 → first_six a ≡ a / 4
unfolding agree first_six
first_six_lem a lt = byte_table first_six (λ a. a / 4) refl a lt

pub second_six_last_lem : (a : ℕ) → a < 256 → second_six_last a ≡ a % 4 * 16
unfolding agree second_six_last
second_six_last_lem a lt = byte_table second_six_last (λ a. a % 4 * 16) refl a lt

pub third_six_last_lem : (b : ℕ) → b < 256 → third_six_last b ≡ b % 16 * 4
unfolding agree third_six_last
third_six_last_lem b lt = byte_table third_six_last (λ b. b % 16 * 4) refl b lt

pub fourth_six_lem : (c : ℕ) → c < 256 → fourth_six c ≡ c % 64
unfolding agree fourth_six
fourth_six_lem c lt = byte_table fourth_six (λ c. c % 64) refl c lt

-- An `or` of a multiple and a remainder is their sum.
or_at :
    (k : ℕ)
    → (n u v : ℕ) → bit_or (n / k * k) (n % k) ≡ n
    → n / k ≡ u
    → n % k ≡ v
    → bit_or (u * k) v ≡ n
or_at k n u v h du dv = ap (λ x. bit_or (x * k) v) (sym du) ∙ ap (bit_or (n / k * k)) (sym dv) ∙ h

pub or_four : (u v : ℕ) → u < 64 → v < 4 → bit_or (u * 4) v ≡ u * 4 + v
unfolding agree
or_four u v lu lv =
    or_at 4 (u * 4 + v) u v
      (byte_table (λ n. bit_or (n / 4 * 4) (n % 4)) (λ n. n) refl (u * 4 + v) (omega arith))
      (omega arith) (omega arith)

or_sixteen : (u v : ℕ) → u < 16 → v < 16 → bit_or (u * 16) v ≡ u * 16 + v
unfolding agree
or_sixteen u v lu lv =
    or_at 16 (u * 16 + v) u v
      (byte_table (λ n. bit_or (n / 16 * 16) (n % 16)) (λ n. n) refl (u * 16 + v) (omega arith))
      (omega arith) (omega arith)

or_sixty_four : (u v : ℕ) → u < 4 → v < 64 → bit_or (u * 64) v ≡ u * 64 + v
unfolding agree
or_sixty_four u v lu lv =
    or_at 64 (u * 64 + v) u v
      (byte_table (λ n. bit_or (n / 64 * 64) (n % 64)) (λ n. n) refl (u * 64 + v) (omega arith))
      (omega arith) (omega arith)

high_four : (b : ℕ) → b < 256 → bit_and (b / 16) 0x0f ≡ b / 16
unfolding agree
high_four b lt = byte_table (λ b. bit_and (b / 16) 0x0f) (λ b. b / 16) refl b lt

high_two : (c : ℕ) → c < 256 → bit_and (c / 64) 0x03 ≡ c / 64
unfolding agree
high_two c lt = byte_table (λ c. bit_and (c / 64) 0x03) (λ c. c / 64) refl c lt

pub second_six_lem : (a b : ℕ) → a < 256 → b < 256 → second_six a b ≡ a % 4 * 16 + b / 16
unfolding second_six
second_six_lem a b la lb =
    rw (second_six_last_lem a la, high_four b lb)
      (or_sixteen (a % 4) (b / 16) (omega arith) (omega arith))

pub third_six_lem : (b c : ℕ) → b < 256 → c < 256 → third_six b c ≡ b % 16 * 4 + c / 64
unfolding third_six
third_six_lem b c lb lc =
    rw (third_six_last_lem b lb, high_two c lc)
      (or_four (b % 16) (c / 64) (omega arith) (omega arith))

pub first_byte_lem : (p q : ℕ) → p < 64 → q < 64 → first_byte p q ≡ p * 4 + q / 16
unfolding agree first_byte
first_byte_lem p q lp lq =
    rw
      (
        six_table (λ p. bit_and (p * 4 % 256) 0xfc) (λ p. p * 4) refl p lp,
        six_table (λ q. bit_and (q / 16) 0x03) (λ q. q / 16) refl q lq,
      )
      (or_four p (q / 16) lp (omega arith))

pub second_byte_lem : (q r : ℕ) → q < 64 → r < 64 → second_byte q r ≡ q % 16 * 16 + r / 4
unfolding agree second_byte
second_byte_lem q r lq lr =
    rw
      (
        six_table (λ q. bit_and (q * 16 % 256) 0xf0) (λ q. q % 16 * 16) refl q lq,
        six_table (λ r. bit_and (r / 4) 0x0f) (λ r. r / 4) refl r lr,
      )
      (or_sixteen (q % 16) (r / 4) (omega arith) (omega arith))

pub third_byte_lem : (r t : ℕ) → r < 64 → t < 64 → third_byte r t ≡ r % 4 * 64 + t
unfolding agree third_byte
third_byte_lem r t lr lt =
    rw
      (
        six_table (λ r. bit_and (r * 64 % 256) 0xf0) (λ r. r % 4 * 64) refl r lr,
        six_table (λ t. bit_and t 0x3f) (λ t. t) refl t lt,
      )
      (or_sixty_four (r % 4) t (omega arith) lt)
