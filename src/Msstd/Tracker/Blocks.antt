-- ===== src/Msstd/Tracker/Blocks.antt =====
-- Which blocks are listed: the entry of a block goes when it is freed, follows it when it is moved, and
-- stays else.
use build_project.Prelude.{
  ℕ, zero, suc, ◌+◌, ◌<◌, ◌==◌, true, false, Option, none, some, [], ◌∷◌, length, ◌≡◌, refl, sym,
  ◌∙◌, ap, arith, if◌then◌else◌, Bool-cases, inl, inr, ◌⊎◌,
}
use build_project.Msstd.MsList.{Memory, update, load, ◌>>=◌, set_element}
use build_project.Msstd.MsList.Chain.{
  Cells, first, Fresh, Chain, address_at, remove_at, Chain-same, Fresh-address, first-address_at,
  Chain-at, eq_comm,
}
use build_project.Msstd.Tracker.{Tracker, erase, find, remove_mem_info, replace_mem_info}
use build_project.Msstd.Tracker.Kept.{IsTracked, IsLast, erase-IsTracked}

-- The list without the first entry of a block.
abbrev pub without : ℕ → Cells → Cells
without block [] = []
without block ((a, x) ∷ r) = if x == block then r else (a, x) ∷ without block r

-- The node of the first entry of a block.
abbrev pub node_of : ℕ → Cells → Option ℕ
node_of block [] = none
node_of block ((a, x) ∷ r) = if x == block then some a else node_of block r

abbrev pub element_set : ℕ → ℕ → Cells → Cells
element_set k y [] = []
element_set zero y ((a, x) ∷ r) = (a, y) ∷ r
element_set (suc k) y (c ∷ r) = c ∷ element_set k y r

-- The list with the first entry of `old` made one of `new`.
abbrev pub renamed : ℕ → ℕ → Cells → Cells
renamed old new [] = []
renamed old new ((a, x) ∷ r) = if x == old then (a, new) ∷ r else (a, x) ∷ renamed old new r

abbrev Absent : ℕ → Cells → Type 0
Absent block r =
    (node_of block r ≡ none) × (without block r ≡ r) × ((new : ℕ) → renamed block new r ≡ r)

abbrev PlacedAt : ℕ → Cells → ℕ → Type 0
PlacedAt block r k =
    (k < length r)
    × (node_of block r ≡ some (address_at r k))
    × (without block r ≡ remove_at k r)
    × ((new : ℕ) → renamed block new r ≡ element_set k new r)

find-cases :
    (h : Memory) (r : Cells) (n block i : ℕ)
    → Chain h r
    → length r < n
    → ((find n block (first r) i h ≡ some (none, h)) × Absent block r)
      ⊎ ((k : ℕ) × (find n block (first r) i h ≡ some (some (i + k, address_at r k), h))
          × PlacedAt block r k)
unfolding find
find-cases h r zero block i c lt = absurd (omega arith)
find-cases h [] (suc n) block i c lt = inl (refl, (refl, refl, λ new. refl))
find-cases h ((a, x) ∷ r) (suc n) block i (live, here, fresh, rest) lt =
    elim (Bool-cases (x == block)) [
      | inl e ↦ inr (0, here_run e, (omega arith, rw (e) refl, rw (e) refl, λ new. rw (e) refl))
      | inr e ↦ elim (find-cases h r n block (i + 1) rest (omega arith)) [
        | inl (run, (at, out, same)) ↦
            inl (on_run e run, (rw (e, at) refl, rw (e, out) refl, λ new. rw (e, same new) refl))
        | inr (k, run, (k_lt, at, out, moved)) ↦ inr (
          suc k,
          on_run e run ∙ ap (λ q. some (some (q, address_at r k), h)) (omega arith),
          (omega arith, rw (e, at) refl, rw (e, out) refl, λ new. rw (e, moved new) refl),
        )
      ]
    ]
  where
    here_run : (x == block) ≡ true → find (suc n) block a i h ≡ some (some (i + 0, a), h)
    here_run e =
        rw (live, if◌then◌else◌, ◌>>=◌, load, here, e)
          (ap (λ q. some (some (q, a), h)) (omega arith))

    on_run :
        {o : Option (Option (ℕ × ℕ) × Memory)}
        → (x == block) ≡ false
        → find n block (first r) (i + 1) h ≡ o
        → find (suc n) block a i h ≡ o
    on_run e run = rw (live, if◌then◌else◌, ◌>>=◌, load, here, e) run

-- The node, if there is one, is no longer in memory.
abbrev pub FreedIf : Option ℕ → Memory → Type 0
FreedIf none h = Unit
FreedIf (some a) h = h a ≡ none

-- Without an entry for the block nothing happens; else its first entry goes, and its node is freed. The
-- memory away from the list stays.
pub remove_mem_info-without :
    (h : Memory) (tr : Tracker) (r : Cells) (rounds block : ℕ)
    → IsTracked h tr r
    → length r < rounds
    → (tr' : Tracker) × (h' : Memory) × (remove_mem_info rounds tr block h ≡ some (tr', h'))
      × IsTracked h' tr' (without block r)
      × ((q : ℕ) → Fresh q r → h' q ≡ h q)
      × FreedIf (node_of block r) h'
unfolding remove_mem_info
remove_mem_info-without h tr r rounds block is lt =
    elim (find-cases h r rounds block 0 is.chain lt) [
      | inl (run, (at, out, same)) ↦
          (tr, h, rw (◌>>=◌, started run) refl, rw (out) is, λ q f. refl, rw (at) tt)
      | inr (k, run, (k_lt, at, out, moved)) ↦
          let (tr', h', erased, is', freed) = erase-IsTracked h tr r k is k_lt in
          (
            tr',
            h',
            rw (◌>>=◌, started run) (ap (λ q. erase tr q h) (omega arith) ∙ erased),
            rw (out) is',
            freed.1,
            rw (at) freed.0,
          )
    ]
  where
    started :
        {o : Option (Option (ℕ × ℕ) × Memory)}
        → find rounds block (first r) 0 h ≡ o
        → find rounds block tr.ptr_start 0 h ≡ o
    started run = ap (λ p. find rounds block p 0 h) is.start ∙ run

first-element_set : (k y : ℕ) (r : Cells) → first (element_set k y r) ≡ first r
first-element_set k y [] = refl
first-element_set zero y (c ∷ r) = refl
first-element_set (suc k) y (c ∷ r) = refl

Fresh-element_set : (a k y : ℕ) (r : Cells) → Fresh a r → Fresh a (element_set k y r)
Fresh-element_set a k y [] f = tt
Fresh-element_set a zero y (c ∷ r) f = f
Fresh-element_set a (suc k) y (c ∷ r) f = (f.0, Fresh-element_set a k y r f.1)

address_at-element_set : (k y j : ℕ) (r : Cells) → address_at (element_set k y r) j ≡ address_at r j
address_at-element_set k y j [] = refl
address_at-element_set zero y zero (c ∷ r) = refl
address_at-element_set zero y (suc j) (c ∷ r) = refl
address_at-element_set (suc k) y zero (c ∷ r) = refl
address_at-element_set (suc k) y (suc j) (c ∷ r) = address_at-element_set k y j r

Chain-element_set :
    (h : Memory) (r : Cells) (k y : ℕ)
    → Chain h r
    → k < length r
    → Chain
        (update h (address_at r k) (some (record { next = address_at r (suc k); element = y })))
        (element_set k y r)
Chain-element_set h [] k y c lt = absurd (omega arith)
Chain-element_set h ((a, x) ∷ r) zero y (live, here, fresh, rest) lt = (
  live,
  ground (arith, first-address_at r),
  fresh,
  Chain-same h _ r a a (λ q na nb. ground (arith)) fresh fresh rest,
)
Chain-element_set h ((a, x) ∷ r) (suc k) y (live, here, fresh, rest) lt = (
  live,
  ground
      (arith, first-element_set k y r, here, eq_comm _ _ (Fresh-address a r k fresh (omega arith))),
  Fresh-element_set a k y r fresh,
  Chain-element_set h r k y rest (omega arith),
)

length-element_set : (k y : ℕ) (r : Cells) → length (element_set k y r) ≡ length r
length-element_set k y [] = refl
length-element_set zero y (c ∷ r) = refl
length-element_set (suc k) y (c ∷ r) = ap suc (length-element_set k y r)

IsLast-element_set :
    (tr : Tracker) (k y : ℕ) (r : Cells) → IsLast tr r → IsLast tr (element_set k y r)
IsLast-element_set tr k y [] last = tt
IsLast-element_set tr zero y ((a, x) ∷ []) last = last
IsLast-element_set tr zero y ((a, x) ∷ c ∷ r) last = last
IsLast-element_set tr (suc k) y (c ∷ r) last =
    last
    ∙ sym (address_at-element_set (suc k) y (length r) (c ∷ r))
    ∙ ap (address_at (c ∷ element_set k y r)) (sym (length-element_set k y r))

-- A block that has moved keeps its entry, under its new address.
pub replace_mem_info-renamed :
    (h : Memory) (tr : Tracker) (r : Cells) (rounds old new : ℕ)
    → IsTracked h tr r
    → length r < rounds
    → (h' : Memory) × (replace_mem_info rounds tr old new h ≡ some (tt, h'))
      × IsTracked h' tr (renamed old new r)
unfolding replace_mem_info
replace_mem_info-renamed h tr r rounds old new is lt =
    elim (find-cases h r rounds old 0 is.chain lt) [
      | inl (run, (at, out, same)) ↦ (h, rw (◌>>=◌, started run) refl, rw (same new) is)
      | inr (k, run, (k_lt, at, out, moved)) ↦ (
        update h (address_at r k) (some (record { next = address_at r (suc k); element = new })),
        rw (◌>>=◌, started run) (rw (set_element, ◌>>=◌, load, Chain-at h r k is.chain k_lt) refl),
        rw (moved new) (record {
          start = is.start ∙ sym (first-element_set k new r);
          next = IsLast-element_set tr k new r is.next;
          chain = Chain-element_set h r k new is.chain k_lt;
        }),
      )
    ]
  where
    started :
        {o : Option (Option (ℕ × ℕ) × Memory)}
        → find rounds old (first r) 0 h ≡ o
        → find rounds old tr.ptr_start 0 h ≡ o
    started run = ap (λ p. find rounds old p 0 h) is.start ∙ run
