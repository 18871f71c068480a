-- ===== src/Msstd/Bits/Digits.antt =====
-- The binary digits of what the bit operations answer.
use Prim.Native.Nat.{bit_and, bit_or, bit_and-bitwise, bit_or-bitwise, digits, min, max}
use native.Mathlib.Nat.{div-div-eq-div-mul}
use native.Mathlib.Omega.{pow_step}
use build_project.Prelude.{
  ℕ, zero, suc, ◌+◌, ◌-◌, ◌*◌, ◌/◌, ◌%◌, ◌^◌, ◌≤◌, ◌<◌, ◌==◌, ltb, Bool, true, false, not, ◌&&◌,
  ◌≡◌, refl, sym, ◌∙◌, ap, arith,
}

-- The digit `q` of a number, from the right.
abbrev pub bit : ℕ → ℕ → ℕ
bit zero v = v % 2
bit (suc q) v = bit q (v / 2)

bit-zero : (q : ℕ) → bit q 0 ≡ 0
bit-zero zero = refl
bit-zero (suc q) = bit-zero q

pub bit_below : (q v : ℕ) → bit q v < 2
bit_below zero v = omega arith
bit_below (suc q) v = bit_below q (v / 2)

-- An operation on digits works on each digit.
module _ (z : ℕ → ℕ) (f : ℕ → ℕ → ℕ) (low : (x y : ℕ) → x < 2 → y < 2 → f x y < 2)
    (run_out : (q b : ℕ) → bit q (z b) ≡ f 0 (bit q b)) where
  bit-out : (q b : ℕ) → bit q (z b) ≡ f (bit q 0) (bit q b)
  bit-out q b = run_out q b ∙ ap (λ x. f x (bit q b)) (sym (bit-zero q))

  bit-digits : (q n a b : ℕ) → a ≤ n → bit q (digits z f n a b) ≡ f (bit q a) (bit q b)
  bit-digits q zero zero b le = bit-out q b
  bit-digits q zero (suc a) b le = absurd (omega arith)
  bit-digits q (suc n) zero b le = bit-out q b
  bit-digits zero (suc n) (suc a) b le =
      omega (arith, low (suc a % 2) (b % 2) (omega arith) (omega arith))
  bit-digits (suc q) (suc n) (suc a) b le =
      let d = digits z f n (suc a / 2) (b / 2) in
      let halved : (d * 2 + f (suc a % 2) (b % 2)) / 2 ≡ d =
        omega (arith, low (suc a % 2) (b % 2) (omega arith) (omega arith)) in
      ap (bit q) halved ∙ bit-digits q n (suc a / 2) (b / 2) (omega arith)

pub bit-bit_and : (q a b : ℕ) → bit q (bit_and a b) ≡ min (bit q a) (bit q b)
bit-bit_and q a b =
    ap (bit q) (bit_and-bitwise a b)
    ∙ bit-digits (λ b. zero) min (λ x y lx ly. omega arith) (λ q b. bit-zero q ∙ omega arith) q a a
        b (omega arith)

pub bit-bit_or : (q a b : ℕ) → bit q (bit_or a b) ≡ max (bit q a) (bit q b)
bit-bit_or q a b =
    ap (bit q) (bit_or-bitwise a b)
    ∙ bit-digits (λ b. b) max (λ x y lx ly. omega arith) (λ q b. omega arith) q a a b (omega arith)

-- The digits of a power of 2, of a number of ones, and of ones with a hole.
abbrev pub one_if : Bool → ℕ
one_if true = 1
one_if false = 0

same_suc : (q p : ℕ) → (q == p) ≡ (suc q == suc p)
same_suc q p = ground arith

less_suc : (q n : ℕ) → ltb q n ≡ ltb (suc q) (suc n)
less_suc q n = ground arith

pub power_pos : (n : ℕ) → 0 < 2 ^ n
power_pos zero = omega arith
power_pos (suc n) = omega (arith, pow_step 2 n, power_pos n)

pub bit-power : (q p : ℕ) → bit q (2 ^ p) ≡ one_if (q == p)
bit-power zero zero = refl
bit-power (suc q) zero = bit-zero q ∙ ground (arith)
bit-power zero (suc p) = ground (arith, pow_step 2 p)
bit-power (suc q) (suc p) =
    let halved : 2 ^ suc p / 2 ≡ 2 ^ p = omega (arith, pow_step 2 p) in
    ap (bit q) halved ∙ bit-power q p ∙ ap one_if (same_suc q p)

-- `n` ones.
pub bit-ones : (q n : ℕ) → bit q (2 ^ n - 1) ≡ one_if (ltb q n)
bit-ones q zero = bit-zero q ∙ ground (arith)
bit-ones zero (suc n) = ground (arith, pow_step 2 n, power_pos n)
bit-ones (suc q) (suc n) =
    let halved : (2 ^ suc n - 1) / 2 ≡ 2 ^ n - 1 = omega (arith, pow_step 2 n, power_pos n) in
    ap (bit q) halved ∙ bit-ones q n ∙ ap one_if (less_suc q n)

power_le : (p n : ℕ) → p < n → 2 ^ p < 2 ^ n
power_le zero zero lt = absurd (omega arith)
power_le zero (suc n) lt = omega (arith, pow_step 2 n, power_pos n)
power_le (suc p) zero lt = absurd (omega arith)
power_le (suc p) (suc n) lt = omega (arith, pow_step 2 n, pow_step 2 p, power_le p n (omega arith))

-- `n` ones but for the digit `p`.
pub bit-hole : (q p n : ℕ) → p < n → bit q (2 ^ n - 1 - 2 ^ p) ≡ one_if (ltb q n && not (q == p))
bit-hole q p zero lt = absurd (omega arith)
bit-hole zero zero (suc n) lt = ground (arith, pow_step 2 n, power_pos n)
bit-hole (suc q) zero (suc n) lt =
    let halved : (2 ^ suc n - 1 - 1) / 2 ≡ 2 ^ n - 1 = omega (arith, pow_step 2 n, power_pos n) in
    ap (bit q) halved ∙ bit-ones q n ∙ ap one_if (ground (arith))
bit-hole zero (suc p) (suc n) lt =
    ground (arith, pow_step 2 n, pow_step 2 p, power_le p n (omega arith))
bit-hole (suc q) (suc p) (suc n) lt =
    let halved : (2 ^ suc n - 1 - 2 ^ suc p) / 2 ≡ 2 ^ n - 1 - 2 ^ p =
      omega (arith, pow_step 2 n, pow_step 2 p, power_le p n (omega arith)) in
    ap (bit q) halved ∙ bit-hole q p n (omega arith) ∙ ap one_if (ground (arith))

-- A shift to the right.
pub bit-shift : (q p v : ℕ) → bit q (v / 2 ^ p) ≡ bit (p + q) v
bit-shift q zero v =
    let whole : v / 2 ^ 0 ≡ v = omega arith in
    let same : q ≡ 0 + q = omega arith in ap (bit q) whole ∙ ap (λ k. bit k v) same
bit-shift q (suc p) v =
    let same : suc (p + q) ≡ suc p + q = omega arith in
    ap (bit q) (ap (λ d. v / d) (pow_step 2 p) ∙ sym (div-div-eq-div-mul v 2 (2 ^ p)))
    ∙ bit-shift q p (v / 2)
    ∙ ap (λ k. bit k v) same

digits-zero : (n a : ℕ) → digits (λ b. zero) min n a 0 ≡ 0
digits-zero zero a = refl
digits-zero (suc n) zero = refl
digits-zero (suc n) (suc a) = omega (arith, digits-zero n (suc a / 2))

digits-one : (n a : ℕ) → a ≤ n → digits (λ b. zero) min n a 1 ≡ a % 2
digits-one zero zero le = refl
digits-one zero (suc a) le = absurd (omega arith)
digits-one (suc n) zero le = refl
digits-one (suc n) (suc a) le = omega (arith, digits-zero n (suc a / 2))

-- `value & 1`
pub bit_and-one : (a : ℕ) → bit_and a 1 ≡ a % 2
bit_and-one a = bit_and-bitwise a 1 ∙ digits-one a a (omega arith)
