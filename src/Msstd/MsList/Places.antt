-- ===== src/Msstd/MsList/Places.antt =====
-- A list in memory, what malloc answers, and the place where ms_list_add puts an element.
use build_project.Prelude.{
  ℕ, zero, suc, ◌+◌, ◌≤◌, ◌<◌, ◌==◌, leb, ℤ, pos, negsuc, false, Option, none, some, [], ◌∷◌,
  length, ◌≡◌, refl, arith, if◌then◌else◌,
}
use build_project.Msstd.MsList.{MsList, Memory, Allocator}
use build_project.Msstd.MsList.Chain.{Cells, first, Fresh, Chain, address_at, insert_at}

-- The list `li` in memory has the nodes `r`.
pub record IsList (h : Memory) (li : MsList) (r : Cells) : Type 0 where
  pub head : li.node ≡ first r
  pub count : li.nb_elt ≡ length r
  pub chain : Chain h r

-- What malloc documents: an address that is not NULL and where no node is.
pub record IsFresh (sys : Allocator) (h : Memory) : Type 0 where
  pub unused : h (sys.address h) ≡ none
  pub not_null : (sys.address h == 0) ≡ false

-- The memories agree away from the nodes `r` and from `p`.
abbrev pub SameBeyond : Cells → ℕ → Memory → Memory → Type 0
SameBeyond r p h h' = (q : ℕ) → Fresh q r → (q == p) ≡ false → h' q ≡ h q

-- The run returns the count `n` and leaves a list of the nodes `r'`.
abbrev pub Leaves : Option ((ℤ × MsList) × Memory) → ℤ → Cells → (Memory → Type 0) → Type 0
Leaves run n r' Same =
    (li' : MsList) × (h' : Memory) × (run ≡ some ((n, li'), h')) × IsList h' li' r' × Same h'

pub address_at-end : (r : Cells) (k : ℕ) → length r ≤ k → address_at r k ≡ 0
address_at-end [] k h = refl
address_at-end ((a, x) ∷ r) zero h = absurd (omega arith)
address_at-end ((a, x) ∷ r) (suc k) h = address_at-end r k (omega arith)

pub length-insert_at : (k : ℕ) (c : ℕ × ℕ) (r : Cells) → length (insert_at k c r) ≡ length r + 1
length-insert_at zero c r = omega arith
length-insert_at (suc k) c [] = refl
length-insert_at (suc k) c (b ∷ r) = ground (arith, length-insert_at k c r)

pub leb-zero : (n : ℕ) → leb (suc n) 0 ≡ false
leb-zero n = ground (arith)

pub insert_at-empty : (k : ℕ) (c : ℕ × ℕ) → insert_at k c [] ≡ c ∷ []
insert_at-empty zero c = refl
insert_at-empty (suc k) c = refl

pub first-insert_at :
    (k : ℕ) (c : ℕ × ℕ) (r : Cells) → 0 < length r → first (insert_at (suc k) c r) ≡ first r
first-insert_at k c [] lt = absurd (omega arith)
first-insert_at k c ((a, x) ∷ r) lt = refl

-- Where the new element stands in a list of `n`: at the end for -1 and for a position that is not in
-- the list, and behind the first for any other position below 0.
abbrev pub index : ℤ → ℕ → ℕ
index (pos k) n = if leb n k then n else k
index (negsuc zero) n = n
index (negsuc (suc m)) n = 1
