-- ===== src/Msstd/MsList/Add.antt =====
-- ms_list_add puts its element where the position says.
use build_project.Prelude.{
  ℕ, zero, suc, ◌+◌, ◌<◌, ◌==◌, leb, ℤ, pos, negsuc, minus_one, is_zero, eq_ℤ, true, false, some,
  [], ◌∷◌, length, ◌≡◌, refl, sym, ◌∙◌, ap, arith, Bool-cases, inl, inr, ◌⊎◌, if◌then◌else◌,
}
use build_project.Msstd.MsList.{
  walk, MsList, Memory, update, Allocator, load, ◌>>=◌, add_first, add_behind, add_at, add_to,
  ms_list_add, rounds, adjusted,
}
use build_project.Msstd.MsList.Chain.{
  Cells, first, address_at, element_at, insert_at, Chain-same, Chain-all, Fresh-none, Fresh-address,
  walk-address_at, Chain-at, Chain-link, eq_comm,
}
use build_project.Msstd.MsList.Places.{
  IsList, IsFresh, SameBeyond, Leaves, address_at-end, length-insert_at, leb-zero, insert_at-empty,
  first-insert_at, index,
}

module _ (sys : Allocator) (li : MsList) (el : ℕ) (h : Memory) where
  add_first-link :
      (r : Cells) (old : ℕ)
      → IsFresh sys h
      → IsList h li r
      → Leaves
          (add_first sys li el (first r) old h)
          (pos (length r + 1))
          (insert_at 0 (sys.address h, el) r)
          (SameBeyond r (sys.address h) h)
  unfolding add_first
  add_first-link r old fresh is =
      let p = sys.address h in
      let h₂ =
        update
          (update (update h p (some (sys.content h))) p
            (some (record { next = (sys.content h).next; element = el })))
          p (some (record { next = first r; element = el })) in
      let fp = Fresh-none h r p is.chain fresh.unused in
      (
        record { nb_elt = li.nb_elt + 1; node = p },
        h₂,
        ground (arith, fresh.unused, fresh.not_null, is.count),
        record {
          head = refl;
          count = ground (arith, is.count);
          chain = (
            fresh.not_null,
            ground (arith),
            fp,
            Chain-same h h₂ r p p (λ q np nq. ground (arith)) fp fp is.chain,
          );
        },
        λ q f np. ground (arith),
      )

  add_behind-link :
      (r : Cells) (k : ℕ)
      → IsFresh sys h
      → IsList h li r
      → k < length r
      → Leaves
          (add_behind sys li el (address_at r k) (address_at r (suc k)) h)
          (pos (length r + 1))
          (insert_at (suc k) (sys.address h, el) r)
          (SameBeyond r (sys.address h) h)
  unfolding add_behind
  add_behind-link r k fresh is lt =
      let p = sys.address h in
      let a = address_at r k in
      let other = Fresh-address p r k (Fresh-none h r p is.chain fresh.unused) lt in
      let here = Chain-at h r k is.chain lt in
      let h₁ =
        update (update h p (some (sys.content h))) a
          (some (record { next = p; element = element_at r k })) in
      let h₂ =
        update (update h₁ p (some (record { next = (sys.content h).next; element = el }))) p
          (some (record { next = address_at r (suc k); element = el })) in
      (
        record li { nb_elt = li.nb_elt + 1 },
        h₂,
        ground (arith, other, eq_comm _ _ other, here, fresh.unused, fresh.not_null, is.count),
        record {
          head = is.head ∙ sym (first-insert_at k (p, el) r (omega arith));
          count = ground (arith, is.count, length-insert_at (suc k) (p, el) r);
          chain =
              Chain-link h h₂ r k p el is.chain lt (Fresh-none h r p is.chain fresh.unused)
                fresh.not_null (λ q na np. ground (arith)) (ground (arith)) (ground (arith));
        },
        λ q f np. ground (arith, eq_comm _ _ (Fresh-address q r k f lt)),
      )

  add_at-behind :
      (r : Cells) (k : ℕ) (i : ℤ)
      → IsList h li r
      → k < length r
      → is_zero i ≡ false
      → rounds i ≡ k
      → (eq_ℤ i (pos li.nb_elt) ≡ true → suc k ≡ length r)
      → add_at sys li el i h ≡ add_behind sys li el (address_at r k) (address_at r (suc k)) h
  unfolding add_at
  add_at-behind r k i is lt nz at last =
      let walked : walk (rounds i) li.node h ≡ some (address_at r k, h) =
        ap (λ m. walk m li.node h) at
        ∙ ap (λ p. walk k p h) is.head
        ∙ walk-address_at h r k is.chain lt in
      elim (Bool-cases (eq_ℤ i (pos li.nb_elt))) [
        | inl e ↦
            rw (nz, if◌then◌else◌, ◌>>=◌, walked, e)
              (ap (λ n. add_behind sys li el (address_at r k) n h)
                (sym (address_at-end r (suc k) (ground (arith, last e)))))
        | inr e ↦ rw (nz, if◌then◌else◌, ◌>>=◌, walked, e, load, Chain-at h r k is.chain lt) refl
      ]

  add_to-adjusted :
      (i j : ℤ)
      → (li.nb_elt == 0) ≡ false
      → adjusted sys li el i ≡ j
      → add_to sys li el i h ≡ add_at sys li el j h
  unfolding add_to
  add_to-adjusted i j some_left e = rw (some_left, e) refl

  add_to-none : (i : ℤ) → li.nb_elt ≡ 0 → add_to sys li el i h ≡ add_first sys li el 0 0 h
  unfolding add_to
  add_to-none i empty = rw (is_empty) refl
    where
      is_empty : (li.nb_elt == 0) ≡ true
      is_empty = ground (arith, empty)

  -- The two places of the code that link a node, and when each is taken.
  AtFirst : Cells → ℤ → Type 0
  AtFirst r i =
      (add_to sys li el i h ≡ add_first sys li el (first r) (first r) h)
      × ((c : ℕ × ℕ) → insert_at (index i (length r)) c r ≡ c ∷ r)

  Behind : Cells → ℤ → Type 0
  Behind r i =
      (k : ℕ) × (k < length r)
      × (add_to sys li el i h ≡ add_behind sys li el (address_at r k) (address_at r (suc k)) h)
      × (index i (length r) ≡ suc k)

  add_to-cases : (r : Cells) (i : ℤ) → IsList h li r → AtFirst r i ⊎ Behind r i
  unfolding AtFirst Behind add_at
  add_to-cases [] i is = inl (add_to-none i is.count, λ c. insert_at-empty (index i 0) c)
  add_to-cases (c ∷ r) (pos zero) is = inl (
    add_to-adjusted (pos 0) (pos 0) (ground (arith, is.count)) (ground (arith, is.count))
        ∙ rw (is.head) refl,
    λ c'. rw (leb-zero (length r)) refl,
  )
  add_to-cases (c ∷ r) (pos (suc k)) is = elim (Bool-cases (leb (suc (length r)) (suc k))) [
    | inl e ↦ inr (
      length r,
      omega arith,
      add_to-adjusted (pos (suc k)) (pos li.nb_elt) (ground (arith, is.count))
            (rw (is.count, e) refl)
          ∙ add_at-behind (c ∷ r) (length r) (pos li.nb_elt) is (omega arith)
              (ground (arith, is.count)) (ground (arith, is.count)) (λ _. refl),
      rw (e) refl,
    )
    | inr e ↦ inr (
      k,
      ground (arith, e),
      add_to-adjusted (pos (suc k)) (pos (suc k)) (ground (arith, is.count)) (rw (is.count, e) refl)
          ∙ add_at-behind (c ∷ r) k (pos (suc k)) is (ground (arith, e)) (ground (arith))
              (omega arith) (λ e'. ground (arith, e', is.count)),
      rw (e) refl,
    )
  ]
  add_to-cases (c ∷ r) (negsuc zero) is = inr (
    length r,
    omega arith,
    add_to-adjusted (negsuc 0) (pos li.nb_elt) (ground (arith, is.count)) refl
        ∙ add_at-behind (c ∷ r) (length r) (pos li.nb_elt) is (omega arith)
            (ground (arith, is.count)) (ground (arith, is.count)) (λ _. refl),
    refl,
  )
  add_to-cases (c ∷ r) (negsuc (suc m)) is = inr (
    0,
    omega arith,
    add_to-adjusted (negsuc (suc m)) (negsuc (suc m)) (ground (arith, is.count)) (ground (arith))
        ∙ add_at-behind (c ∷ r) 0 (negsuc (suc m)) is (omega arith) refl refl
            (λ e. ground (arith, e)),
    refl,
  )

  add_to-index :
      (r : Cells) (i : ℤ)
      → IsFresh sys h
      → IsList h li r
      → Leaves
          (add_to sys li el i h)
          (pos (length r + 1))
          (insert_at (index i (length r)) (sys.address h, el) r)
          (SameBeyond r (sys.address h) h)
  unfolding AtFirst Behind
  add_to-index r i fresh is = elim (add_to-cases r i is) [
    | inl at ↦ rw (at.0, at.1) (add_first-link r (first r) fresh is)
    | inr (k, lt, at, e) ↦ rw (at, e) (add_behind-link r k fresh is lt)
  ]

  add_to-full :
      (r : Cells) (i : ℤ)
      → sys.address h ≡ 0
      → IsList h li r
      → Leaves (add_to sys li el i h) minus_one r (λ h'. (q : ℕ) → h' q ≡ h q)
  unfolding AtFirst Behind add_first add_behind
  add_to-full r i full is = elim (add_to-cases r i is) [
    | inl at ↦ (
      record li { node = first r },
      h,
      rw (at.0, full) refl,
      record { head = refl; count = is.count; chain = is.chain },
      λ q. refl,
    )
    | inr (k, lt, at, e) ↦
        let a = address_at r k in
        let h₂ =
          update (update h a (some (record { next = 0; element = element_at r k }))) a
            (some (record { next = address_at r (suc k); element = element_at r k })) in
        let back : (q : ℕ) → h₂ q ≡ h q = λ q. ground (arith, Chain-at h r k is.chain lt) in
        (
          li,
          h₂,
          ground (arith, at, full, Chain-at h r k is.chain lt),
          record { head = is.head; count = is.count; chain = Chain-all h h₂ r back is.chain },
          back,
        )
  ]

-- The element goes to `index`, in a new node, the other nodes and the rest of the memory stay, and
-- the new count comes back.
pub ms_list_add-insert_at :
    (sys : Allocator) (li : MsList) (el : ℕ) (i : ℤ) (h : Memory) (r : Cells)
    → IsFresh sys h
    → IsList h li r
    → (li' : MsList) × (h' : Memory) × (ms_list_add sys (some li) el i h
        ≡ some ((pos (length r + 1), some li'), h'))
      × IsList h' li' (insert_at (index i (length r)) (sys.address h, el) r)
      × SameBeyond r (sys.address h) h h'
unfolding ms_list_add
ms_list_add-insert_at sys li el i h r fresh is =
    let (li', h', run, is', same) = add_to-index sys li el h r i fresh is in
    (li', h', rw (◌>>=◌, run) refl, is', same)

-- With no memory left the code returns -1 and the list has the nodes that it had.
ms_list_add-full :
    (sys : Allocator) (li : MsList) (el : ℕ) (i : ℤ) (h : Memory) (r : Cells)
    → sys.address h ≡ 0
    → IsList h li r
    → (li' : MsList) × (h' : Memory) × (ms_list_add sys (some li) el i h
        ≡ some ((minus_one, some li'), h'))
      × IsList h' li' r
      × ((q : ℕ) → h' q ≡ h q)
unfolding ms_list_add
ms_list_add-full sys li el i h r full is =
    let (li', h', run, is', same) = add_to-full sys li el h r i full is in
    (li', h', rw (◌>>=◌, run) refl, is', same)
