-- ===== src/Msstd/Text/Strip.antt =====
-- ms_string_strip takes out one byte, and nothing else.
use build_project.Prelude.{
  ℕ, ◌+◌, ◌==◌, false, [], ◌∷◌, Bytes, length, if◌then◌else◌, ◌≡◌, refl, arith, Bool-cases, inl,
  inr, All,
}
use build_project.Msstd.Text.{ms_string_strip}

-- How often a byte stands in a text.
abbrev pub count : ℕ → Bytes → ℕ
count x [] = 0
count x (y ∷ s) = if y == x then count x s + 1 else count x s

strip-Without : (s : Bytes) (c : ℕ) → All (λ x. (x == c) ≡ false) (ms_string_strip s c)
unfolding ms_string_strip
strip-Without [] c = tt
strip-Without (x ∷ s) c = elim (Bool-cases (x == c)) [
  | inl same ↦ rw same (strip-Without s c)
  | inr other ↦ rw other (other, strip-Without s c)
]

count-strip : (s : Bytes) (c x : ℕ) → (x == c) ≡ false → count x (ms_string_strip s c) ≡ count x s
unfolding ms_string_strip
count-strip [] c x other = refl
count-strip (y ∷ s) c x other = ground (arith, count-strip s c x other)

length-strip : (s : Bytes) (c : ℕ) → length (ms_string_strip s c) + count c s ≡ length s
unfolding ms_string_strip
length-strip [] c = omega arith
length-strip (y ∷ s) c = ground (arith, length-strip s c)

-- `ms_string_strip` leaves no `c`, keeps any other byte `x` as often as it was, and shortens the text by
-- the number of bytes `c` in it.
pub ms_string_strip_lem :
    (s : Bytes) (c x : ℕ)
    → (x == c) ≡ false
    → All (λ y. (y == c) ≡ false) (ms_string_strip s c)
      × (count x (ms_string_strip s c) ≡ count x s)
      × (length (ms_string_strip s c) + count c s ≡ length s)
ms_string_strip_lem s c x other = (strip-Without s c, count-strip s c x other, length-strip s c)
