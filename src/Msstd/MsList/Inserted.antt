-- ===== src/Msstd/MsList/Inserted.antt =====
-- ms_list_iterator_add puts an element in and keeps the iterator at its node.
use build_project.Prelude.{
  ℕ, zero, suc, ◌+◌, ◌≤◌, ◌<◌, leb, ℤ, pos, negsuc, some, [], ◌∷◌, length, ◌≡◌, refl, sym, ◌∙◌, ap,
  arith, if◌then◌else◌, Bool-cases, inl, inr, ◌⊎◌,
}
use native.Mathlib.Numerals.{add-one}
use build_project.Msstd.MsList.{MsList, Memory, Allocator, ◌>>=◌, ms_list_add}
use build_project.Msstd.MsList.Chain.{Cells, address_at, insert_at}
use build_project.Msstd.MsList.Places.{IsList, IsFresh, index, length-insert_at}
use build_project.Msstd.MsList.Add.{ms_list_add-insert_at}
use build_project.Msstd.MsList.Iterator.{Iterator, ms_list_iterator_add, clipped}

address_at-insert_at_before :
    (r : Cells) (j k : ℕ) (c : ℕ × ℕ)
    → k < j
    → k < length r
    → address_at (insert_at j c r) k ≡ address_at r k
address_at-insert_at_before r zero k c lt in_r = absurd (omega arith)
address_at-insert_at_before [] (suc j) k c lt in_r = absurd (omega arith)
address_at-insert_at_before (b ∷ r) (suc j) zero c lt in_r = refl
address_at-insert_at_before (b ∷ r) (suc j) (suc k) c lt in_r =
    address_at-insert_at_before r j k c (omega arith) (omega arith)

address_at-insert_at_behind :
    (r : Cells) (j k : ℕ) (c : ℕ × ℕ)
    → j ≤ k
    → address_at (insert_at j c r) (suc k) ≡ address_at r k
address_at-insert_at_behind r zero k c le = refl
address_at-insert_at_behind [] (suc j) k c le = refl
address_at-insert_at_behind (b ∷ r) (suc j) zero c le = absurd (omega arith)
address_at-insert_at_behind (b ∷ r) (suc j) (suc k) c le =
    address_at-insert_at_behind r j k c (omega arith)

clipped-most : (i : ℤ) (n j : ℕ) → clipped i n ≡ pos j → j ≤ n
clipped-most (pos k) n j e = ground (arith, e)
clipped-most (negsuc zero) n j e = ground (arith, e)
clipped-most (negsuc (suc k)) n j e = ground (arith, e)

index-most : (n j : ℕ) → j ≤ n → index (pos j) n ≡ j
index-most n j le = ground (arith, le)

ms_list_add-at :
    (sys : Allocator) (li : MsList) (el : ℕ) (i : ℤ) (j : ℕ) (h : Memory) (r : Cells)
    → IsFresh sys h
    → IsList h li r
    → index i (length r) ≡ j
    → (li' : MsList) × (h' : Memory) × (ms_list_add sys (some li) el i h
        ≡ some ((pos (length r + 1), some li'), h'))
      × IsList h' li' (insert_at j (sys.address h, el) r)
ms_list_add-at sys li el i j h r fresh is e =
    let (li', h', run, is', same) = ms_list_add-insert_at sys li el i h r fresh is in
    (li', h', run, rw⁻¹ (e) is')

-- The place of a node that stood at `k`, when an element goes to `j`.
abbrev pub moved : ℕ → ℕ → ℕ
moved j k = if leb j k then k + 1 else k

-- A position that is not below -1.
abbrev pub IsPosition : ℤ → Type 0
IsPosition i = (i ≡ negsuc 0) ⊎ (k : ℕ) × (i ≡ pos k)

clipped-index : (i : ℤ) (n : ℕ) → IsPosition i → clipped i n ≡ pos (index i n)
clipped-index i n (inl e) = rw (e) refl
clipped-index i n (inr (k, e)) = rw (e) (ground arith)

-- For a position that is not below -1 the element goes to the place `index` of it: to the position, and
-- to the end for -1 or a position behind the end. The iterator is at the node that it was at, which has
-- its new place.
pub ms_list_iterator_add-moved :
    (sys : Allocator) (it : Iterator) (li : MsList) (el : ℕ) (i : ℤ) (h : Memory) (r : Cells)
    → IsFresh sys h
    → IsList h li r
    → IsPosition i
    → it.actual ≡ address_at r it.place
    → it.place < length r
    → (it' : Iterator) × (li' : MsList) × (h' : Memory) × (ms_list_iterator_add sys it li el i h
        ≡ some ((pos (length r + 1), it', some li'), h'))
      × IsList h' li' (insert_at (index i (length r)) (sys.address h, el) r)
      × (it'.place ≡ moved (index i (length r)) it.place)
      × (it'.actual ≡ it.actual)
      × (it'.actual ≡ address_at (insert_at (index i (length r)) (sys.address h, el) r) it'.place)
unfolding ms_list_iterator_add
ms_list_iterator_add-moved sys it li el i h r fresh is position at lt =
    let j = index i (length r) in
    let clip : clipped i (length r) ≡ pos j = clipped-index i (length r) position in
    let (li', h', run, is') =
      ms_list_add-at sys li el (pos j) j h r fresh is
        (index-most (length r) j (clipped-most i (length r) j clip)) in
    let count : li'.nb_elt ≡ length r + 1 = is'.count ∙ length-insert_at j (sys.address h, el) r in
    let clipped_at : clipped i li.nb_elt ≡ pos j = ap (clipped i) is.count ∙ clip in
    (
      record it { place = moved j it.place },
      li',
      h',
      rw (clipped_at, ◌>>=◌, run) (ground (arith, count)),
      is',
      refl,
      refl,
      at ∙ elim (Bool-cases (leb j it.place)) [
        | inl e ↦
            rw (e, add-one it.place)
              (sym (address_at-insert_at_behind r j it.place _ (ground (arith, e))))
        | inr e ↦ rw (e) (sym (address_at-insert_at_before r j it.place _ (ground (arith, e)) lt))
      ],
    )
