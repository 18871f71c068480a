-- ===== src/Msstd/Bits/Set.antt =====
-- What ms_set_bit changes, and what ms_get_bit and ms_get_bits read.
use Prim.Native.Nat.{bit_and, bit_or, min, max}
use build_project.Prelude.{
  ℕ, zero, suc, ◌+◌, ◌-◌, ◌/◌, ◌^◌, ◌<◌, ◌==◌, leb, ltb, pos, Bool, true, false, not, ◌&&◌, some,
  ◌≡◌, refl, ◌∙◌, ap, arith, if◌then◌else◌,
}
use build_project.Msstd.Bits.{ms_get_bit, ms_set_bit, ms_get_bits}
use build_project.Msstd.Bits.Digits.{
  bit, bit_below, one_if, bit-bit_and, bit-bit_or, bit-power, bit-ones, bit-hole, bit-shift,
  bit_and-one,
}

inside : (p : ℕ) → p < 64 → leb 64 p ≡ false
inside p lt = ground arith

ms_get_bit-bit : (v q : ℕ) → q < 64 → ms_get_bit v (pos q) ≡ some (pos (bit q v))
unfolding ms_get_bit
ms_get_bit-bit v q lt =
    let same : q + 0 ≡ q = omega arith in
    let low : bit_and (v / 2 ^ q) 1 ≡ bit q v =
      bit_and-one (v / 2 ^ q) ∙ bit-shift 0 q v ∙ ap (λ k. bit k v) same in
    rw (inside q lt, low) (digit (bit q v) (bit_below q v))
  where
    digit : (d : ℕ) → d < 2 → some (if d == 0 then pos 0 else pos 1) ≡ some (pos d)
    digit zero lt = refl
    digit (suc zero) lt = refl
    digit (suc (suc d)) lt = absurd (omega arith)

or_digit : (b : Bool) (d : ℕ) → d < 2 → max d (one_if b) ≡ (if b then 1 else d)
or_digit true d lt = omega arith
or_digit false d lt = omega arith

and_digit : (b : Bool) (d : ℕ) → d < 2 → min d (one_if (true && not b)) ≡ (if b then 0 else d)
and_digit true d lt = omega arith
and_digit false d lt = omega arith

pushed :
    (b : Bool) (d e : ℕ)
    → some (pos (if b then d else e)) ≡ (if b then some (pos d) else some (pos e))
pushed true d e = refl
pushed false d e = refl

-- The bit `p` is as it was asked for, and every other bit as it was.
pub ms_get_bit-ms_set_bit :
    (v p q : ℕ) (on : Bool)
    → p < 64
    → q < 64
    → (v' : ℕ) × (ms_set_bit v (pos p) on ≡ some (pos 0, v'))
      × (ms_get_bit v' (pos q) ≡ (if q == p then some (pos (one_if on)) else ms_get_bit v (pos q)))
unfolding ms_set_bit
ms_get_bit-ms_set_bit v p q true lp lq = (
  bit_or v (2 ^ p),
  rw (inside p lp) refl,
  ms_get_bit-bit (bit_or v (2 ^ p)) q lq
      ∙ rw
          (
            bit-bit_or q v (2 ^ p),
            bit-power q p,
            or_digit (q == p) (bit q v) (bit_below q v),
            ms_get_bit-bit v q lq,
          )
          (pushed (q == p) 1 (bit q v)),
)
ms_get_bit-ms_set_bit v p q false lp lq =
    let below : ltb q 64 ≡ true = ground (arith, lq) in
    (
      bit_and v (2 ^ 64 - 1 - 2 ^ p),
      rw (inside p lp) refl,
      ms_get_bit-bit (bit_and v (2 ^ 64 - 1 - 2 ^ p)) q lq
          ∙ rw
              (
                bit-bit_and q v (2 ^ 64 - 1 - 2 ^ p),
                bit-hole q p 64 lp,
                below,
                and_digit (q == p) (bit q v) (bit_below q v),
                ms_get_bit-bit v q lq,
              )
              (pushed (q == p) 0 (bit q v)),
    )

-- The number that is read has the `n` bits from `p` on, and no others.
pub ms_get_bits-bit :
    (v p n q : ℕ)
    → p < 64
    → n < 64
    → (w : ℕ) × (ms_get_bits v (pos p) (pos n) ≡ some w)
      × (bit q w ≡ (if ltb q n then bit (p + q) v else 0))
unfolding ms_get_bits
ms_get_bits-bit v p n q lp ln = (
  bit_and (v / 2 ^ p) (2 ^ n - 1),
  rw (inside p lp, inside n ln) refl,
  rw (bit-bit_and q (v / 2 ^ p) (2 ^ n - 1), bit-shift q p v, bit-ones q n)
      (mask_digit (ltb q n) (bit (p + q) v) (bit_below (p + q) v)),
)
  where
    mask_digit : (b : Bool) (d : ℕ) → d < 2 → min d (one_if b) ≡ (if b then d else 0)
    mask_digit true d lt = omega arith
    mask_digit false d lt = omega arith
