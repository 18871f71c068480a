-- ===== src/Msstd/Pool/Queue.antt =====
-- ms_pool_add_task puts a task at the end of the queue, and ms_pool_thread_uninit frees the queue.
use build_project.Prelude.{
  ℕ, zero, suc, ◌+◌, ◌≤◌, ◌<◌, ◌==◌, ltb, pos, minus_one, Bool, true, false, ◌||◌, none, some, [],
  ◌∷◌, ◌++◌, length, ◌≡◌, refl, ◌∙◌, ap, arith, if◌then◌else◌, inl, inr, ◌⊎◌,
}
use build_project.Msstd.MsList.{Memory, update, load, M, ◌>>=◌, ◌>>◌, set_next, ms_free}
use build_project.Msstd.MsList.Chain.{
  Cells, first, Fresh, Chain, address_at, element_at, insert_at, Chain-same, Fresh-address,
  Chain-at, Chain-link, eq_comm,
}
use build_project.Msstd.MsList.Places.{address_at-end}
use build_project.Msstd.MsList.Free.{AllFreed}
use build_project.Msstd.Pool.{
  Pool, max_thread_pool_task, last_member, append_task, refuses, ms_pool_add_task, free_tasks,
  ms_pool_thread_uninit,
}

-- The queue of the pool has the tasks `r`, and its size is their number.
pub record IsQueue (h : Memory) (p : Pool) (r : Cells) : Type 0 where
  pub head : p.queue_head ≡ first r
  pub size : p.cur_queue_size ≡ length r
  pub chain : Chain h r

-- A task that is in no queue and is linked to none.
pub record IsReady (h : Memory) (t e : ℕ) (r : Cells) : Type 0 where
  pub live : (t == 0) ≡ false
  pub alone : h t ≡ some (record { next = 0; element = e })
  pub fresh : Fresh t r

last_member-Chain :
    (h : Memory) (a x : ℕ) (r : Cells) (n : ℕ)
    → Chain h ((a, x) ∷ r)
    → length r < n
    → last_member n a h ≡ some (address_at ((a, x) ∷ r) (length r), h)
unfolding last_member
last_member-Chain h a x r zero c lt = absurd (omega arith)
last_member-Chain h a x [] (suc n) c lt = ground (arith, c.1)
last_member-Chain h a x ((b, y) ∷ r) (suc n) c lt =
    ground (arith, c.1, c.3.0, last_member-Chain h b y r n c.3 (omega arith))

pub insert_at-length : (c : ℕ × ℕ) (r : Cells) → insert_at (length r) c r ≡ r ++ (c ∷ [])
insert_at-length c [] = refl
insert_at-length c (b ∷ r) = ap (λ s. b ∷ s) (insert_at-length c r)

pub length-snoc : (c : ℕ × ℕ) (r : Cells) → length (r ++ (c ∷ [])) ≡ length r + 1
length-snoc c [] = refl
length-snoc c (b ∷ r) = ground (arith, length-snoc c r)

-- Only the link of the last task changes.
abbrev pub SameBeyondLast : Cells → Memory → Memory → Type 0
SameBeyondLast r h h' = (q : ℕ) → Fresh q r → h' q ≡ h q

pub append_task-last :
    (h : Memory) (p : Pool) (r : Cells) (t e : ℕ)
    → IsQueue h p r
    → IsReady h t e r
    → (p' : Pool) × (h' : Memory) × (append_task p t h ≡ some (p', h'))
      × IsQueue h' p' (r ++ ((t, e) ∷ []))
      × SameBeyondLast r h h'
unfolding append_task
append_task-last h p [] t e is ready = (
  record p { queue_head = t; cur_queue_size = p.cur_queue_size + 1 },
  h,
  rw (is.head) refl,
  record { head = refl; size = ground (arith, is.size); chain = (ready.live, ready.alone, tt, tt) },
  λ q f. refl,
)
append_task-last h p ((a, x) ∷ r) t e is ready =
    let l = (a, x) ∷ r in
    let k = length r in
    let b = address_at l k in
    let here = Chain-at h l k is.chain (omega arith) in
    let other = Fresh-address t l k ready.fresh (omega arith) in
    let h₁ = update h b (some (record { next = t; element = element_at l k })) in
    let head : p.queue_head ≡ a = is.head in
    let append_run : append_task p t h
        ≡ some (record p { cur_queue_size = p.cur_queue_size + 1 }, h₁) =
      rw
        (
          head,
          is.chain.0,
          if◌then◌else◌,
          ◌>>=◌,
          last_member-Chain h a x r (suc p.cur_queue_size) is.chain (ground (arith, is.size)),
          ◌>>◌,
          set_next,
          load,
          here,
        )
        refl in
    let linked =
      Chain-link h h₁ l k t e is.chain (omega arith) ready.fresh ready.live
        (λ q nb nt. ground (arith)) (ground (arith))
        (ground (arith, eq_comm _ _ other, ready.alone, address_at-end l (suc k) (omega arith))) in
    (
      record p { cur_queue_size = p.cur_queue_size + 1 },
      h₁,
      append_run,
      record {
        head = is.head;
        size = ground (arith, is.size, length-snoc (t, e) r);
        chain = rw⁻¹ (insert_at-length (t, e) r) linked;
      },
      λ q f. ground (arith, eq_comm _ _ (Fresh-address q l k f (omega arith))),
    )

-- With at most 200 tasks counted, a task that is in no queue becomes the last of this one.
pub ms_pool_add_task-last :
    (h : Memory) (p : Pool) (r : Cells) (t e : ℕ)
    → IsQueue h p r
    → IsReady h t e r
    → length r ≤ max_thread_pool_task
    → (p' : Pool) × (h' : Memory) × (ms_pool_add_task p t h ≡ some ((pos 0, p'), h'))
      × IsQueue h' p' (r ++ ((t, e) ∷ []))
      × SameBeyondLast r h h'
unfolding ms_pool_add_task
ms_pool_add_task-last h p r t e is ready le =
    let (p', h', run, is', same) = append_task-last h p r t e is ready in
    let free : refuses p t ≡ false = ground (arith, is.size, ready.live) in
    (p', h', rw (free, ◌>>=◌, run) refl, is', same)

above : (n : ℕ) → max_thread_pool_task < n → ltb max_thread_pool_task n ≡ true
above n h = ground arith

or_true : (b : Bool) → (b || true) ≡ true
or_true true = refl
or_true false = refl

-- With more, or without a task, the pool and the queue stay as they are, and -1 comes back.
pub ms_pool_add_task-full :
    (h : Memory) (p : Pool) (r : Cells) (t : ℕ)
    → IsQueue h p r
    → (t ≡ 0) ⊎ (max_thread_pool_task < length r)
    → ms_pool_add_task p t h ≡ some ((minus_one, p), h)
unfolding ms_pool_add_task
ms_pool_add_task-full h p r t is full =
    let no : refuses p t ≡ true = elim full [
      | inl e ↦ ground (arith, e)
      | inr e ↦ rw (above p.cur_queue_size (rw (is.size) e)) (or_true (t == 0))
    ] in
    rw (no) refl

free_tasks-AllFreed :
    (h : Memory) (r : Cells) (n : ℕ)
    → Chain h r
    → length r < n
    → (h' : Memory) × (free_tasks n (first r) h ≡ some (tt, h')) × AllFreed r h h'
unfolding free_tasks
free_tasks-AllFreed h r zero c lt = absurd (omega arith)
free_tasks-AllFreed h [] (suc n) c lt = (h, refl, (tt, λ q f. refl))
free_tasks-AllFreed h ((a, x) ∷ r) (suc n) (live, here, fresh, rest) lt =
    let h₁ = update h a none in
    let (h', run, all) =
      free_tasks-AllFreed h₁ r n
        (Chain-same h h₁ r a a (λ q na nb. ground (arith)) fresh fresh rest) (omega arith) in
    (
      h',
      rw (live, ◌>>=◌, load, here, ◌>>◌, ms_free, if◌then◌else◌, load, here, run) refl,
      ((all.1 a fresh ∙ ground (arith), all.0), λ q f. all.1 q f.1 ∙ ground (arith, f.0)),
    )

-- A pool that is not shut down frees every task that its threads leave in the queue, and nothing else
-- of what they leave; a pool that is, returns -1.
pub ms_pool_thread_uninit-AllFreed :
    (join : Pool → M Pool) (rounds : ℕ) (p q : Pool) (h h₁ : Memory) (r : Cells)
    → p.shutdown ≡ 0
    → join (record p { shutdown = 1 }) h ≡ some (q, h₁)
    → q.queue_head ≡ first r
    → Chain h₁ r
    → length r < rounds
    → (h' : Memory) × (ms_pool_thread_uninit join rounds p h ≡ some ((pos 0, none), h'))
      × AllFreed r h₁ h'
      × (ms_pool_thread_uninit join rounds (record p { shutdown = 1 }) h
          ≡ some ((minus_one, some (record p { shutdown = 1 })), h))
unfolding ms_pool_thread_uninit
ms_pool_thread_uninit-AllFreed join rounds p q h h₁ r running joined head c lt =
    let (h', run, all) = free_tasks-AllFreed h₁ r rounds c lt in
    (h', rw (running, ◌>>=◌, joined, ◌>>◌, head, run) refl, all, refl)
