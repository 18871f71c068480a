-- ===== src/Msstd/MsList/Remove.antt =====
-- ms_list_get answers the element at a position, and ms_list_remove takes its node out.
use build_project.Prelude.{
  ℕ, zero, suc, ◌-◌, ◌≤◌, ◌<◌, ◌==◌, leb, ℤ, pos, negsuc, false, none, some, [], ◌∷◌, length, ◌≡◌,
  refl, sym, ◌∙◌, arith, Bool-cases, inl, inr,
}
use build_project.Msstd.MsList.{
  Node, MsList, Memory, update, load, pure, ◌>>=◌, ms_free, set_next, ◌>>◌, ms_list_get,
  remove_from, ms_list_remove,
}
use build_project.Msstd.MsList.Chain.{
  Cells, first, Fresh, Chain, address_at, element_at, remove_at, Chain-same, Fresh-address,
  first-address_at, walk-address_at, Chain-at, Chain-unlink, eq_comm,
}
use build_project.Msstd.MsList.Places.{IsList}

-- The element at a position, NULL where the list has none.
abbrev pub element_of : Cells → ℤ → ℕ
element_of r (pos k) = element_at r k
element_of r (negsuc k) = 0

pub element_at-end : (r : Cells) (k : ℕ) → length r ≤ k → element_at r k ≡ 0
element_at-end [] k h = refl
element_at-end ((a, x) ∷ r) zero h = absurd (omega arith)
element_at-end ((a, x) ∷ r) (suc k) h = element_at-end r k (omega arith)

-- The code answers that element and leaves the memory as it is.
pub ms_list_get-element_of :
    (li : MsList) (i : ℤ) (h : Memory) (r : Cells)
    → IsList h li r
    → ms_list_get (some li) i h ≡ some (element_of r i, h)
unfolding ms_list_get
ms_list_get-element_of li (negsuc k) h r is = refl
ms_list_get-element_of li (pos k) h r is = elim (Bool-cases (leb (length r) k)) [
  | inl e ↦ rw (is.count, e, element_at-end r k (ground (arith, e))) refl
  | inr e ↦
      let lt : k < length r = ground (arith, e) in
      rw
        (
          is.count,
          e,
          is.head,
          ◌>>=◌,
          walk-address_at h r k is.chain lt,
          load,
          Chain-at h r k is.chain lt,
        )
        refl
]

pub address_at-live :
    (h : Memory) (r : Cells) (k : ℕ) → Chain h r → k < length r → (address_at r k == 0) ≡ false
address_at-live h [] k c lt = absurd (omega arith)
address_at-live h ((a, x) ∷ r) zero c lt = c.0
address_at-live h ((a, x) ∷ r) (suc k) c lt = address_at-live h r k c.3 (omega arith)

pub address_at-next :
    (h : Memory) (r : Cells) (k : ℕ)
    → Chain h r
    → suc k < length r
    → (address_at r (suc k) == address_at r k) ≡ false
address_at-next h [] k c lt = absurd (omega arith)
address_at-next h ((a, x) ∷ r) zero c lt = Fresh-address a r 0 c.2 (omega arith)
address_at-next h ((a, x) ∷ r) (suc k) c lt = address_at-next h r k c.3 (omega arith)

pub length-remove_at : (k : ℕ) (r : Cells) → k < length r → length (remove_at k r) ≡ length r - 1
length-remove_at k [] lt = absurd (omega arith)
length-remove_at zero (b ∷ r) lt = omega arith
length-remove_at (suc k) (b ∷ r) lt = ground (arith, length-remove_at k r (omega arith))

first-remove_at : (k : ℕ) (r : Cells) → first (remove_at (suc k) r) ≡ first r
first-remove_at k [] = refl
first-remove_at k ((a, x) ∷ r) = refl

-- The node is freed, and a memory away from the list is as it was.
abbrev pub Freed : Cells → ℕ → Memory → Memory → Type 0
Freed r k h h' = (h' (address_at r k) ≡ none) × ((q : ℕ) → Fresh q r → h' q ≡ h q)

-- The link of `p` passes over its next node `g`, which is freed.
abbrev pub skip : Memory → ℕ → ℕ → Node → Memory
skip h p g c = update (update h p (some c)) g none

unlink_run :
    (h : Memory) (p g e : ℕ) (gone : Node) {A : Type 0} {z : A}
    → h p ≡ some (record { next = g; element = e })
    → h g ≡ some gone
    → (g == p) ≡ false
    → (g == 0) ≡ false
    → (do c ← load p; d ← load c.next; set_next p d.next; ms_free c.next; pure z) h
      ≡ some (z, skip h p g (record { next = gone.next; element = e }))
unlink_run h p g e gone here there other live =
    rw (◌>>=◌, load, here, there, ◌>>◌, set_next, here, ms_free, live, update, other, there) refl

-- What taking out the node at a place leaves.
abbrev pub unlinked : Memory → Cells → ℕ → Memory
unlinked h r zero = update h (first r) none
unlinked h r (suc k) =
    skip h (address_at r k) (address_at r (suc k))
      (record { next = address_at r (suc (suc k)); element = element_at r k })

abbrev pub shorter : MsList → Cells → ℕ → MsList
shorter li r zero = record { nb_elt = li.nb_elt - 1; node = address_at r 1 }
shorter li r (suc k) = record { nb_elt = li.nb_elt - 1; node = li.node }

pub unlinked-IsList :
    (li : MsList) (h : Memory) (r : Cells) (k : ℕ)
    → IsList h li r
    → k < length r
    → IsList (unlinked h r k) (shorter li r k) (remove_at k r) × Freed r k h (unlinked h r k)
unlinked-IsList li h [] k is lt = absurd (omega arith)
unlinked-IsList li h ((a, x) ∷ r) zero is lt =
    let (live, here, fresh, rest) = is.chain in
    (
      record {
        head = sym (first-address_at r);
        count = ground (arith, is.count);
        chain = Chain-same h (update h a none) r a a (λ q na nb. ground (arith)) fresh fresh rest;
      },
      (ground (arith), λ q f. ground (arith, f.0)),
    )
unlinked-IsList li h ((a, x) ∷ r) (suc k) is lt =
    let l = (a, x) ∷ r in
    let other = address_at-next h l k is.chain lt in
    (
      record {
        head = is.head;
        count = ground (arith, is.count, length-remove_at (suc k) l lt);
        chain =
            Chain-unlink h (unlinked h l (suc k)) l k is.chain lt (λ q na nb. ground (arith))
              (ground (arith, eq_comm _ _ other));
      },
      (
        ground (arith),
        λ q f. ground (
          arith,
          eq_comm _ _ (Fresh-address q l k f (omega arith)),
          eq_comm _ _ (Fresh-address q l (suc k) f lt),
        ),
      ),
    )

remove_from-unlinked :
    (li : MsList) (h : Memory) (r : Cells) (k : ℕ)
    → IsList h li r
    → k < length r
    → remove_from li k h ≡ some ((pos (length r - 1), shorter li r k), unlinked h r k)
unfolding remove_from
remove_from-unlinked li h [] k is lt = absurd (omega arith)
remove_from-unlinked li h ((a, x) ∷ r) zero is lt =
    ground (arith, is.head, is.count, is.chain.0, is.chain.1, first-address_at r)
remove_from-unlinked li h ((a, x) ∷ r) (suc k) is lt =
    let l = (a, x) ∷ r in
    rw (is.head, ◌>>=◌, walk-address_at h l k is.chain (omega arith))
      (unlink_run h (address_at l k) (address_at l (suc k)) _ _
          (Chain-at h l k is.chain (omega arith)) (Chain-at h l (suc k) is.chain lt)
          (address_at-next h l k is.chain lt) (address_at-live h l (suc k) is.chain lt)
        ∙ rw (is.count) refl)

-- At a position of the list the node is taken out and freed, the other nodes and the rest of the
-- memory stay, and the new count comes back.
pub ms_list_remove-remove_at :
    (li : MsList) (k : ℕ) (h : Memory) (r : Cells)
    → IsList h li r
    → k < length r
    → (li' : MsList) × (h' : Memory) × (ms_list_remove (some li) (pos k) h
        ≡ some ((pos (length r - 1), some li'), h'))
      × IsList h' li' (remove_at k r)
      × Freed r k h h'
unfolding ms_list_remove
ms_list_remove-remove_at li k h r is lt =
    let (is', freed) = unlinked-IsList li h r k is lt in
    let inside : leb li.nb_elt k ≡ false = ground (arith, is.count) in
    (
      shorter li r k,
      unlinked h r k,
      rw (inside, ◌>>=◌, remove_from-unlinked li h r k is lt) refl,
      is',
      freed,
    )
