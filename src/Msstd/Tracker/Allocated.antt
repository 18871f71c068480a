-- ===== src/Msstd/Tracker/Allocated.antt =====
-- Allocations and the list of the blocks, its length, and its end.
use build_project.Prelude.{
  ℕ, zero, suc, ◌+◌, ◌<◌, ◌==◌, true, false, ◌||◌, none, some, [], ◌∷◌, ◌++◌, All, length, ◌≡◌,
  refl, ◌∙◌, ap, arith, if◌then◌else◌,
}
use build_project.Msstd.MsList.{Memory, update, Allocator, load, ◌>>=◌, ◌>>◌}
use build_project.Msstd.MsList.Chain.{Cells, first, Chain, Chain-same}
use build_project.Msstd.MsList.Places.{IsFresh}
use build_project.Msstd.MsList.Free.{AllFreed}
use build_project.Msstd.Pool.Queue.{length-snoc}
use build_project.Msstd.Tracker.{
  Tracker, free, remove_mem_info, tracked_malloc, tracked_free, count_from, clear_from, clear,
}
use build_project.Msstd.Tracker.Kept.{IsTracked, add-IsTracked}
use build_project.Msstd.Tracker.Blocks.{without, remove_mem_info-without}

==_refl : (n : ℕ) → (n == n) ≡ true
==_refl n = ground arith

remove_mem_info-to :
    (h : Memory) (tr : Tracker) (l r : Cells) (rounds block : ℕ)
    → IsTracked h tr l
    → without block l ≡ r
    → length l < rounds
    → (tr' : Tracker) × (h' : Memory) × (remove_mem_info rounds tr block h ≡ some (tr', h'))
      × IsTracked h' tr' r
remove_mem_info-to h tr l r rounds block is e lt =
    let (tr', h', run, is', same, freed) = remove_mem_info-without h tr l rounds block is lt in
    (tr', h', run, rw⁻¹ (e) is')

without-last :
    (block p : ℕ) (r : Cells)
    → All (λ c. (c.1 == block) ≡ false) r
    → without block (r ++ ((p, block) ∷ [])) ≡ r
without-last block p [] out = rw (==_refl block) refl
without-last block p ((a, x) ∷ r) out =
    rw (out.0) (ap (λ s. (a, x) ∷ s) (without-last block p r out.1))

-- A block that is allocated and freed leaves the list of the blocks as it was.
pub tracked_free-tracked_malloc :
    (sys : Allocator) (h : Memory) (tr : Tracker) (r : Cells) (rounds size block : ℕ)
    → IsFresh sys h
    → IsTracked h tr r
    → All (λ c. (c.1 == block) ≡ false) r
    → 0 < size
    → 0 < block
    → length r + 1 < rounds
    → (tr₁ tr₂ : Tracker) × (h₁ h₂ : Memory) × (tracked_malloc sys tr size block h
        ≡ some ((block, tr₁), h₁))
      × IsTracked h₁ tr₁ (r ++ ((sys.address h, block) ∷ []))
      × (tracked_free rounds tr₁ block h₁ ≡ some (tr₂, h₂))
      × IsTracked h₂ tr₂ r
unfolding tracked_malloc tracked_free
tracked_free-tracked_malloc sys h tr r rounds size block fresh is out some_size some_block lt =
    let (tr₁, h₁, added, is₁) = add-IsTracked sys h tr r block fresh is in
    let l = r ++ ((sys.address h, block) ∷ []) in
    let (tr₂, h₂, removed, is₂) =
      remove_mem_info-to h₁ tr₁ l r rounds block is₁ (without-last block (sys.address h) r out)
        (ground (arith, lt, length-snoc (sys.address h, block) r)) in
    let given : (size == 0 || block == 0) ≡ false = ground (arith, some_size, some_block) in
    let live : (block == 0) ≡ false = ground (arith, some_block) in
    (tr₁, tr₂, h₁, h₂, rw (given, ◌>>=◌, added) refl, is₁, rw (live, if◌then◌else◌) removed, is₂)

-- mem_get_cur_list counts the entries, and changes nothing.
pub count_from-length :
    (h : Memory) (r : Cells) (n : ℕ)
    → Chain h r
    → length r < n
    → count_from n (first r) h ≡ some (length r, h)
unfolding count_from
count_from-length h r zero c lt = absurd (omega arith)
count_from-length h [] (suc n) c lt = refl
count_from-length h ((a, x) ∷ r) (suc n) (live, here, fresh, rest) lt =
    rw (live, if◌then◌else◌, ◌>>=◌, load, here, count_from-length h r n rest (omega arith))
      (ap (λ m. some (m, h)) (omega arith))

clear_from-AllFreed :
    (h : Memory) (r : Cells) (n : ℕ)
    → Chain h r
    → length r < n
    → (h' : Memory) × (clear_from n (first r) h ≡ some (tt, h')) × AllFreed r h h'
unfolding clear_from
clear_from-AllFreed h r zero c lt = absurd (omega arith)
clear_from-AllFreed h [] (suc n) c lt = (h, refl, (tt, λ q f. refl))
clear_from-AllFreed h ((a, x) ∷ r) (suc n) (live, here, fresh, rest) lt =
    let h₁ = update h a none in
    let (h', run, all) =
      clear_from-AllFreed h₁ r n
        (Chain-same h h₁ r a a (λ q na nb. ground (arith)) fresh fresh rest) (omega arith) in
    (
      h',
      rw (live, if◌then◌else◌, ◌>>=◌, load, here, ◌>>◌, free, load, here, run) refl,
      ((all.1 a fresh ∙ ground (arith), all.0), λ q f. all.1 q f.1 ∙ ground (arith, f.0)),
    )

-- __ms_clear frees every entry and nothing else, and leaves an empty list, whose `ptr_next` is stale.
pub clear-AllFreed :
    (h : Memory) (tr : Tracker) (r : Cells) (rounds : ℕ)
    → IsTracked h tr r
    → length r < rounds
    → (h' : Memory) × (clear rounds tr h
        ≡ some (record { ptr_start = 0; ptr_next = tr.ptr_next }, h'))
      × AllFreed r h h'
      × IsTracked h' (record { ptr_start = 0; ptr_next = tr.ptr_next }) []
unfolding clear
clear-AllFreed h tr r rounds is lt =
    let (h', run, all) = clear_from-AllFreed h r rounds is.chain lt in
    (
      h',
      rw (◌>>◌, ◌>>=◌, ap (λ p. clear_from rounds p h) is.start ∙ run) refl,
      all,
      record { start = refl; next = tt; chain = tt },
    )
