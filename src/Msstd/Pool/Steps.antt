-- ===== src/Msstd/Pool/Steps.antt =====
-- ms_pool_add_task by several threads at once: the test of the size is in front of the lock, so each
-- thread can pass it before any of them gets the lock.
use build_project.Prelude.{
  ℕ, suc, ◌+◌, ◌≤◌, ◌<◌, ◌==◌, Bool, ◌||◌, ltb, false, Option, none, some, [], ◌∷◌, ◌++◌, All,
  length, ◌≡◌, sym, ◌∙◌, ap, arith,
}
use mathlib.Core.Path.{subst}
use build_project.Msstd.MsList.{Memory}
use build_project.Msstd.MsList.Chain.{Cells, Fresh, address_at, element_at, remove_at}
use build_project.Msstd.Pool.{Pool, max_thread_pool_task, append_task, refuses}
use build_project.Msstd.Pool.Queue.{IsQueue, IsReady, append_task-last, length-snoc}
use build_project.Msstd.Pool.Ready.{
  All-at, All-remove_at, Distinct, Distinct-remove_at, Distinct-at, length-remove, Ready,
  Ready-snoc,
}

-- `passed` are the tasks of the threads between the test and the lock.
pub record System : Type 0 where
  pub memory : Memory
  pub pool : Pool
  pub passed : Cells

-- One of `adders` threads goes on: it passes the test with a task that is in no queue, or it has the
-- lock and adds the task that it passed the test with.
pub data Step (adders : ℕ) : System → System → Type 0 where
  pass :
      (s : System) (t e : ℕ)
      → refuses s.pool t ≡ false
      → length s.passed < adders
      → s.memory t ≡ some (record { next = 0; element = e })
      → Fresh t s.passed
      → ((r : Cells) → IsQueue s.memory s.pool r → Fresh t r)
      → Step adders s (record s { passed = (t, e) ∷ s.passed })
  append :
      (s : System) (k : ℕ) (p : Pool) (h : Memory)
      → k < length s.passed
      → append_task s.pool (address_at s.passed k) s.memory ≡ some (p, h)
      → Step adders s (record { memory = h; pool = p; passed = remove_at k s.passed })

-- The steps of all threads, in the order in which they happen.
pub data Run (adders : ℕ) : System → System → Type 0 where
  go : {s s' s'' : System} → Step adders s s' → Run adders s' s'' → Run adders s s''
  stay : (s : System) → Run adders s s

-- The queue is in order, the tasks between the test and the lock are in no queue, and the tasks of
-- both kinds are 200 and one for each thread at most.
pub record IsSound (adders : ℕ) (s : System) (r : Cells) : Type 0 where
  pub queue : IsQueue s.memory s.pool r
  pub ready : All (λ c. IsReady s.memory c.0 c.1 r) s.passed
  pub distinct : Distinct s.passed
  pub bound : length r + length s.passed ≤ max_thread_pool_task + adders

-- The task at a place is added, and the system is sound behind it.
append-IsSound :
    (adders : ℕ) (s : System) (r : Cells) (k : ℕ)
    → IsSound adders s r
    → k < length s.passed
    → (p : Pool) × (h : Memory) × (append_task s.pool (address_at s.passed k) s.memory
        ≡ some (p, h))
      × IsSound adders
          (record { memory = h; pool = p; passed = remove_at k s.passed })
          (r ++ ((address_at s.passed k, element_at s.passed k) ∷ []))
append-IsSound adders s r k sound lt =
    let t = address_at s.passed k in
    let e = element_at s.passed k in
    let w = remove_at k s.passed in
    let (p, h, run, queue, same) =
      append_task-last s.memory s.pool r t e sound.queue
        (All-at (Ready s.memory r) s.passed k sound.ready lt) in
    (
      p,
      h,
      run,
      record {
        queue = queue;
        ready =
            Ready-snoc s.memory h r w t e same
              (All-remove_at (Ready s.memory r) s.passed k sound.ready)
              (Distinct-at s.passed k sound.distinct lt);
        distinct = Distinct-remove_at s.passed k sound.distinct;
        bound = ground (arith, sound.bound, length-remove s.passed k lt, length-snoc (t, e) r);
      },
    )

abbrev get_or : Pool × Memory → Option (Pool × Memory) → Pool × Memory
get_or d none = d
get_or d (some x) = x

small : (b : Bool) (n : ℕ) → (b || ltb max_thread_pool_task n) ≡ false → n ≤ max_thread_pool_task
small b n free = ground (arith, free)

pass_bound :
    (p : Pool) (t : ℕ) (r : Cells) (w adders : ℕ)
    → refuses p t ≡ false
    → p.cur_queue_size ≡ length r
    → w < adders
    → length r + suc w ≤ max_thread_pool_task + adders
pass_bound p t r w adders free size room =
    let le : length r ≤ max_thread_pool_task = rw⁻¹ (size) (small (t == 0) p.cur_queue_size free) in
    omega arith

Step-IsSound :
    {adders : ℕ} {s s' : System} (r : Cells)
    → Step adders s s'
    → IsSound adders s r
    → (r' : Cells) × IsSound adders s' r'
Step-IsSound {adders} r (pass s t e free room alone apart new) sound = (
  r,
  record {
    queue = sound.queue;
    ready = (
      record { live = ground (arith, free); alone = alone; fresh = new r sound.queue },
      sound.ready,
    );
    distinct = (apart, sound.distinct);
    bound = pass_bound s.pool t r (length s.passed) adders free sound.queue.size room;
  },
)
Step-IsSound {adders} r (append s k p h lt run) sound =
    let (p', h', run', sound') = append-IsSound adders s r k sound lt in
    (
      r ++ ((address_at s.passed k, element_at s.passed k) ∷ []),
      subst
          (λ x.
            IsSound adders (record { memory = x.1; pool = x.0; passed = remove_at k s.passed })
              (r ++ ((address_at s.passed k, element_at s.passed k) ∷ [])))
          (ap (get_or (p, h)) (sym run' ∙ run)) sound',
    )

Run-IsSound :
    {adders : ℕ} {s s' : System} (r : Cells)
    → IsSound adders s r
    → Run adders s s'
    → (r' : Cells) × IsSound adders s' r'
Run-IsSound r sound (stay s) = (r, sound)
Run-IsSound r sound (go step steps) =
    let (r₁, sound₁) = Step-IsSound r step sound in Run-IsSound r₁ sound₁ steps

start-IsSound :
    {adders : ℕ} {s : System} (r : Cells)
    → IsQueue s.memory s.pool r
    → length r ≤ max_thread_pool_task
    → s.passed ≡ []
    → IsSound adders s r
start-IsSound r queue le idle = record {
  queue = queue;
  ready = rw (idle) tt;
  distinct = rw (idle) tt;
  bound = rw (idle) (omega arith);
}

-- From a queue of at most 200 tasks with no thread at work on it, however the threads' steps mix: the
-- queue stays in order, its size is the number of its tasks, and they are 200 and one for each thread
-- at most.
pub Run-IsQueue :
    {adders : ℕ} {s s' : System} (r : Cells)
    → IsQueue s.memory s.pool r
    → length r ≤ max_thread_pool_task
    → s.passed ≡ []
    → Run adders s s'
    → (r' : Cells) × IsQueue s'.memory s'.pool r'
      × (s'.pool.cur_queue_size ≤ max_thread_pool_task + adders)
Run-IsQueue r queue le idle steps =
    let (r', sound) = Run-IsSound r (start-IsSound r queue le idle) steps in
    (r', sound.queue, ground (arith, sound.bound, sound.queue.size))

-- However the steps mix, a thread that is past the test can add its task, which is then the last one.
pub Run-append_task :
    {adders : ℕ} {s s' : System} (r : Cells) (k : ℕ)
    → IsQueue s.memory s.pool r
    → length r ≤ max_thread_pool_task
    → s.passed ≡ []
    → Run adders s s'
    → k < length s'.passed
    → (r' : Cells) × (p : Pool) × (h : Memory) × IsQueue s'.memory s'.pool r'
      × (append_task s'.pool (address_at s'.passed k) s'.memory ≡ some (p, h))
      × IsQueue h p (r' ++ ((address_at s'.passed k, element_at s'.passed k) ∷ []))
Run-append_task {adders} {s} {s'} r k queue le idle steps lt =
    let (r', sound) = Run-IsSound r (start-IsSound r queue le idle) steps in
    let (p, h, run, sound') = append-IsSound adders s' r' k sound lt in
    (r', p, h, sound.queue, run, sound'.queue)
