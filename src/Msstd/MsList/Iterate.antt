-- ===== src/Msstd/MsList/Iterate.antt =====
-- The iterator goes through a list in order, and takes out the node that it stands at.
use build_project.Prelude.{
  ℕ, zero, suc, ◌-◌, ◌<◌, ◌==◌, leb, ltb, true, false, some, [], ◌∷◌, length, ◌≡◌, refl, sym, ◌∙◌,
  ap, arith, Bool-cases, inl, inr,
}
use build_project.Msstd.MsList.{Node, MsList, Memory, ◌>>=◌}
use build_project.Msstd.MsList.Chain.{
  Cells, address_at, element_at, remove_at, first-address_at, Chain-at, eq_comm,
}
use build_project.Msstd.MsList.Places.{IsList, address_at-end}
use build_project.Msstd.MsList.Remove.{
  Freed, unlinked, shorter, skip, unlinked-IsList, address_at-next, address_at-live, element_at-end,
}
use build_project.Msstd.MsList.Iterator.{
  Link, at_head, at_next, Iterator, ms_list_iterator_has_elem, element_or_null, ms_list_get_first,
  ms_list_get_next, take_out, ms_list_iterator_remove,
}

abbrev pub link_to : Cells → ℕ → Link
link_to r zero = at_head
link_to r (suc k) = at_next (address_at r k)

-- The iterator stands at the place `k` of the nodes `r`, behind the last one if `k` is their number.
pub record IsAt (r : Cells) (k : ℕ) (it : Iterator) : Type 0 where
  pub here : it.actual ≡ address_at r k
  pub link : it.prev ≡ link_to r k
  pub counted : it.place ≡ k

-- Where it stands, the code finds a node exactly inside the list, and answers its element.
element_or_null-element_at :
    (h : Memory) (li : MsList) (r : Cells) (k : ℕ) (it : Iterator)
    → IsList h li r
    → it.actual ≡ address_at r k
    → it.place ≡ k
    → element_or_null it li h ≡ some (element_at r k, h)
unfolding ms_list_iterator_has_elem
element_or_null-element_at h li r k it is here counted = elim (Bool-cases (leb (length r) k)) [
  | inl e ↦
      rw
        (
          here,
          counted,
          is.count,
          address_at-end r k (ground (arith, e)),
          element_at-end r k (ground (arith, e)),
        )
        refl
  | inr e ↦
      let lt : k < length r = ground (arith, e) in
      let inside : ltb k (length r) ≡ true = ground (arith, lt) in
      ground (
        arith,
        here,
        counted,
        is.count,
        address_at-live h r k is.chain lt,
        Chain-at h r k is.chain lt,
      )
]

-- The iterator is put at the first node, and its element comes back, NULL for an empty list.
pub ms_list_get_first-IsAt :
    (h : Memory) (li : MsList) (a x : ℕ) (r : Cells) (it : Iterator)
    → IsList h li ((a, x) ∷ r)
    → (it' : Iterator) × (ms_list_get_first li it h ≡ some ((x, it'), h))
      × IsAt ((a, x) ∷ r) 0 it'
      × (ms_list_get_first (record li { nb_elt = 0 }) it h
          ≡ some ((0, record it { actual = 0 }), h))
unfolding ms_list_get_first
ms_list_get_first-IsAt h li a x r it is = (
  record { actual = a; prev = at_head; place = 0 },
  ground (arith, is.head, is.count, is.chain.1),
  record { here = refl; link = refl; counted = refl },
  refl,
)

-- The iterator goes on to the next node, and its element comes back, NULL behind the last one.
ms_list_get_next-IsAt :
    (h : Memory) (li : MsList) (r : Cells) (k : ℕ) (it : Iterator)
    → IsList h li r
    → k < length r
    → IsAt r k it
    → (it' : Iterator) × (ms_list_get_next it li h ≡ some ((element_at r (suc k), it'), h))
      × IsAt r (suc k) it'
unfolding ms_list_get_next ms_list_iterator_has_elem
ms_list_get_next-IsAt h li r k it is lt at = (
  record { actual = address_at r (suc k); prev = at_next (address_at r k); place = suc k },
  elim (Bool-cases (leb (length r) (suc k))) [
    | inl e ↦ ground (
      arith,
      at.here,
      at.counted,
      is.count,
      Chain-at h r k is.chain lt,
      address_at-end r (suc k) (ground (arith, e)),
      element_at-end r (suc k) (ground (arith, e)),
    )
    | inr e ↦ ground (
      arith,
      at.here,
      at.counted,
      is.count,
      Chain-at h r k is.chain lt,
      address_at-live h r (suc k) is.chain (ground (arith, e)),
      Chain-at h r (suc k) is.chain (ground (arith, e)),
    )
  ],
  record { here = refl; link = refl; counted = refl },
)

address_at-remove_at : (r : Cells) (k : ℕ) → address_at (remove_at k r) k ≡ address_at r (suc k)
address_at-remove_at [] k = refl
address_at-remove_at ((a, x) ∷ r) zero = refl
address_at-remove_at ((a, x) ∷ r) (suc k) = address_at-remove_at r k

pub address_at-before :
    (r : Cells) (k : ℕ) → k < length r → address_at (remove_at (suc k) r) k ≡ address_at r k
address_at-before [] k lt = refl
address_at-before ((a, x) ∷ r) zero lt = refl
address_at-before ((a, x) ∷ r) (suc k) lt = address_at-before r k (omega arith)

link_to-remove_at : (r : Cells) (k : ℕ) → k < length r → link_to (remove_at k r) k ≡ link_to r k
link_to-remove_at r zero lt = refl
link_to-remove_at r (suc k) lt = ap at_next (address_at-before r k (omega arith))

element_at-remove_at : (r : Cells) (k : ℕ) → element_at (remove_at k r) k ≡ element_at r (suc k)
element_at-remove_at [] k = refl
element_at-remove_at ((a, x) ∷ r) zero = refl
element_at-remove_at ((a, x) ∷ r) (suc k) = element_at-remove_at r k

take_out_run :
    (h : Memory) (li : MsList) (p g e n : ℕ) (gone : Node)
    → h p ≡ some (record { next = g; element = e })
    → h g ≡ some gone
    → (g == p) ≡ false
    → (g == 0) ≡ false
    → take_out (record { actual = g; prev = at_next p; place = n }) li h
      ≡ some (
        (
          record { actual = gone.next; prev = at_next p; place = n },
          record li { nb_elt = li.nb_elt - 1 },
        ),
        skip h p g (record { next = gone.next; element = e }),
      )
unfolding take_out
take_out_run h li p g e n gone here there other live =
    ground (arith, here, there, other, eq_comm _ _ other, live)

take_out-unlinked :
    (h : Memory) (li : MsList) (r : Cells) (k : ℕ) (it : Iterator)
    → IsList h li r
    → k < length r
    → IsAt r k it
    → take_out it li h
      ≡ some ((record it { actual = address_at r (suc k) }, shorter li r k), unlinked h r k)
unfolding take_out
take_out-unlinked h li [] k it is lt at = absurd (omega arith)
take_out-unlinked h li ((a, x) ∷ r) zero it is lt at =
    ground (arith, at.here, at.link, is.head, is.chain.0, is.chain.1, first-address_at r)
take_out-unlinked h li ((a, x) ∷ r) (suc k) it is lt at =
    let l = (a, x) ∷ r in
    rw (at.here, at.link)
      (take_out_run h li (address_at l k) (address_at l (suc k)) _ it.place _
        (Chain-at h l k is.chain (omega arith)) (Chain-at h l (suc k) is.chain lt)
        (address_at-next h l k is.chain lt) (address_at-live h l (suc k) is.chain lt))

has_elem-inside :
    (h : Memory) (li : MsList) (r : Cells) (k : ℕ) (it : Iterator)
    → IsList h li r
    → k < length r
    → IsAt r k it
    → ms_list_iterator_has_elem it li ≡ true
unfolding ms_list_iterator_has_elem
has_elem-inside h li r k it is lt at =
    ground (arith, at.here, at.counted, is.count, address_at-live h r k is.chain lt)

-- At a node the code takes it out and frees it, answers the element behind it, and stands there.
pub ms_list_iterator_remove-remove_at :
    (h : Memory) (li : MsList) (r : Cells) (k : ℕ) (it : Iterator)
    → IsList h li r
    → k < length r
    → IsAt r k it
    → (it' : Iterator) × (li' : MsList) × (h' : Memory) × (ms_list_iterator_remove it li h
        ≡ some ((element_at r (suc k), it', li'), h'))
      × IsList h' li' (remove_at k r)
      × IsAt (remove_at k r) k it'
      × Freed r k h h'
unfolding ms_list_iterator_remove
ms_list_iterator_remove-remove_at h li r k it is lt at =
    let (is', freed) = unlinked-IsList li h r k is lt in
    let it' : Iterator = record it { actual = address_at r (suc k) } in
    let at' = address_at-remove_at r k in
    let found =
      element_or_null-element_at (unlinked h r k) (shorter li r k) (remove_at k r) k it' is'
        (sym at') at.counted in
    let live = has_elem-inside h li r k it is lt at in
    (
      it',
      shorter li r k,
      unlinked h r k,
      rw (live, ◌>>=◌, take_out-unlinked h li r k it is lt at, found, element_at-remove_at r k)
          refl,
      is',
      record {
        here = sym at';
        link = at.link ∙ sym (link_to-remove_at r k lt);
        counted = at.counted;
      },
      freed,
    )
