-- ===== src/Msstd/Tracker/Kept.antt =====
-- The list of the blocks stays well formed: `ptr_next` is its last node whenever there is one.
use build_project.Prelude.{
  ℕ, zero, suc, ◌-◌, ◌≤◌, ◌<◌, ◌==◌, leb, false, none, some, [], ◌∷◌, ◌++◌, length, ◌≡◌, refl, sym,
  ◌∙◌, ap, arith, Bool-cases, inl, inr,
}
use build_project.Msstd.MsList.{Node, Memory, update, Allocator, load, ◌>>=◌, ◌>>◌, set_next}
use build_project.Msstd.MsList.Chain.{
  Cells, first, Chain, address_at, element_at, remove_at, Fresh-address, walk-address_at, Chain-at,
  Chain-link, Fresh-none, eq_comm,
}
use build_project.Msstd.MsList.Places.{IsFresh, address_at-end}
use build_project.Msstd.MsList.Remove.{
  unlinked, unlinked-IsList, address_at-live, address_at-next, Freed, length-remove_at,
}
use build_project.Msstd.MsList.Iterate.{address_at-before}
use build_project.Msstd.Pool.Queue.{insert_at-length}
use build_project.Msstd.Tracker.{Tracker, add, erase, end_at, free}

-- `ptr_next` is the last node, if there is one.
abbrev pub IsLast : Tracker → Cells → Type 0
IsLast tr [] = Unit {0}
IsLast tr (c ∷ r) = tr.ptr_next ≡ address_at (c ∷ r) (length r)

-- The memory with the new node.
abbrev listed : Allocator → Memory → ℕ → Memory
listed sys h block =
    let p = sys.address h in
    update
      (update (update h p (some (sys.content h))) p
        (some (record { next = (sys.content h).next; element = block })))
      p (some (record { next = 0; element = block }))

-- The nodes `r` are the list.
pub record IsTracked (h : Memory) (tr : Tracker) (r : Cells) : Type 0 where
  pub start : tr.ptr_start ≡ first r
  pub next : IsLast tr r
  pub chain : Chain h r

last-snoc :
    (b c : ℕ × ℕ) (r : Cells) → address_at (b ∷ (r ++ (c ∷ []))) (length (r ++ (c ∷ []))) ≡ c.0
last-snoc b c [] = refl
last-snoc b c (d ∷ r) = last-snoc d c r

IsLast-tail :
    (tr : Tracker) (s : ℕ) (c : ℕ × ℕ) (r : Cells)
    → IsLast tr (c ∷ r)
    → IsLast (record tr { ptr_start = s }) r
IsLast-tail tr s c [] last = tt
IsLast-tail tr s c (d ∷ r) last = last

address_at-behind :
    (r : Cells) (k j : ℕ) → k ≤ j → address_at (remove_at k r) j ≡ address_at r (suc j)
address_at-behind [] k j le = refl
address_at-behind (c ∷ r) zero j le = refl
address_at-behind (c ∷ r) (suc k) zero le = absurd (omega arith)
address_at-behind (c ∷ r) (suc k) (suc j) le = address_at-behind r k j (omega arith)

end_at-start : (tr : Tracker) (a n : ℕ) → (end_at tr a n).ptr_start ≡ tr.ptr_start
end_at-start tr a n = ground arith

-- `ptr_next` behind the node that went is the last one again.
end_at-last :
    (h : Memory) (tr : Tracker) (l : Cells) (k : ℕ)
    → Chain h l
    → tr.ptr_next ≡ address_at l (length l - 1)
    → suc k < length l
    → (end_at tr (address_at l k) (address_at l (suc (suc k)))).ptr_next
      ≡ address_at (remove_at (suc k) l) (length (remove_at (suc k) l) - 1)
end_at-last h tr l k c last lt = elim (Bool-cases (leb (length l) (suc (suc k)))) [
  | inl e ↦
      rw (length-remove_at (suc k) l lt, address_at-end l (suc (suc k)) (ground (arith, e)))
        (sym (address_at-before l k (omega arith))
          ∙ ap (address_at (remove_at (suc k) l)) (ground (arith, e)))
  | inr e ↦
      rw (length-remove_at (suc k) l lt, address_at-live h l (suc (suc k)) c (ground (arith, e)))
        (last
          ∙ ap (address_at l) (omega arith)
          ∙ sym (address_at-behind l (suc k) (length l - 1 - 1) (ground (arith, e))))
]

add_run :
    (sys : Allocator) (h : Memory) (tr : Tracker) (block : ℕ) (c : Node)
    → IsFresh sys h
    → (tr.ptr_start == 0) ≡ false
    → h tr.ptr_next ≡ some c
    → (tr.ptr_next == sys.address h) ≡ false
    → add sys tr block h
      ≡ some (
        record tr { ptr_next = sys.address h },
        update (listed sys h block) tr.ptr_next (some (record c { next = sys.address h })),
      )
unfolding add
add_run sys h tr block c fresh some_left here other =
    ground (arith, fresh.not_null, some_left, here, other, eq_comm _ _ other)

-- An entry for a block in a new node at the end.
pub add-IsTracked :
    (sys : Allocator) (h : Memory) (tr : Tracker) (r : Cells) (block : ℕ)
    → IsFresh sys h
    → IsTracked h tr r
    → (tr' : Tracker) × (h' : Memory) × (add sys tr block h ≡ some (tr', h'))
      × IsTracked h' tr' (r ++ ((sys.address h, block) ∷ []))
unfolding add
add-IsTracked sys h tr [] block fresh is =
    let p = sys.address h in
    let h₂ = listed sys h block in
    (
      record { ptr_start = p; ptr_next = p },
      h₂,
      ground (arith, fresh.not_null, is.start),
      record { start = refl; next = refl; chain = (fresh.not_null, ground (arith), tt, tt) },
    )
add-IsTracked sys h tr ((a, x) ∷ r) block fresh is =
    let l = (a, x) ∷ r in
    let k = length r in
    let p = sys.address h in
    let b = address_at l k in
    let here = Chain-at h l k is.chain (omega arith) in
    let fp = Fresh-none h l p is.chain fresh.unused in
    let other = Fresh-address p l k fp (omega arith) in
    let h₂ = listed sys h block in
    let h₃ = update h₂ b (some (record { next = p; element = element_at l k })) in
    let next : tr.ptr_next ≡ b = is.next in
    (
      record tr { ptr_next = p },
      h₃,
      add_run sys h tr block (record { next = address_at l (suc k); element = element_at l k })
            fresh (ground (arith, is.start, is.chain.0)) (rw (next) here) (rw (next) other)
          ∙ rw (next) refl,
      record {
        start = is.start;
        next = sym (last-snoc (a, x) (p, block) r);
        chain = rw⁻¹ (insert_at-length (p, block) r) (
            Chain-link h h₃ l k p block is.chain (omega arith) fp fresh.not_null
              (λ q nb np. ground (arith)) (ground (arith))
              (ground (arith, eq_comm _ _ other, address_at-end l (suc k) (omega arith))));
      },
    )

erase_run :
    (h : Memory) (tr : Tracker) (r : Cells) (k : ℕ)
    → Chain h r
    → suc k < length r
    → tr.ptr_start ≡ first r
    → erase tr (suc k) h
      ≡ some (end_at tr (address_at r k) (address_at r (suc (suc k))), unlinked h r (suc k))
unfolding erase
erase_run h tr r k c lt start =
    rw
      (
        start,
        ◌>>=◌,
        walk-address_at h r k c (omega arith),
        load,
        Chain-at h r k c (omega arith),
        Chain-at h r (suc k) c lt,
        ◌>>◌,
        set_next,
        Chain-at h r k c (omega arith),
        free,
        update,
        address_at-next h r k c lt,
        Chain-at h r (suc k) c lt,
      )
      refl

-- The entry at a place goes.
pub erase-IsTracked :
    (h : Memory) (tr : Tracker) (r : Cells) (k : ℕ)
    → IsTracked h tr r
    → k < length r
    → (tr' : Tracker) × (h' : Memory) × (erase tr k h ≡ some (tr', h'))
      × IsTracked h' tr' (remove_at k r)
      × Freed r k h h'
unfolding erase
erase-IsTracked h tr [] k is lt = absurd (omega arith)
erase-IsTracked h tr ((a, x) ∷ r) zero is lt =
    let (kept, freed) =
      unlinked-IsList (record { nb_elt = suc (length r); node = a }) h ((a, x) ∷ r) 0
        (record { head = refl; count = refl; chain = is.chain }) lt in
    (
      record tr { ptr_start = first r },
      update h a none,
      ground (arith, is.start, is.chain.1),
      record { start = refl; next = IsLast-tail tr (first r) (a, x) r is.next; chain = kept.chain },
      freed,
    )
erase-IsTracked h tr ((a, x) ∷ r) (suc k) is lt =
    let l = (a, x) ∷ r in
    let (kept, freed) =
      unlinked-IsList (record { nb_elt = suc (length r); node = a }) h l (suc k)
        (record { head = refl; count = refl; chain = is.chain }) lt in
    (
      end_at tr (address_at l k) (address_at l (suc (suc k))),
      unlinked h l (suc k),
      erase_run h tr l k is.chain lt is.start,
      record {
        start = end_at-start tr (address_at l k) (address_at l (suc (suc k))) ∙ is.start;
        next =
            end_at-last h tr l k is.chain (is.next ∙ ap (address_at l) (omega arith)) lt
            ∙ ap (address_at (remove_at (suc k) l)) (omega arith);
        chain = kept.chain;
      },
      freed,
    )
