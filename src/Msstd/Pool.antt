-- ===== src/Msstd/Pool.antt =====
-- libs/msstd/thread_ex.c: the pool of threads and its queue of tasks. A task is a node of a memory,
-- whose `element` stands for `do_pool_task` and its argument. What the threads of the pool do is the
-- function of the caller, and no part of the model, as `pthreadId`. The lock and the condition are the
-- platform's: a step of `Append` is what runs under the lock.
pub mod Queue
pub mod Ready
pub mod Steps
use build_project.Prelude.{
  ℕ, zero, suc, ◌+◌, ◌==◌, ltb, ℤ, pos, negsuc, minus_one, is_negative, is_zero, Bool, true, false,
  ◌&&◌, ◌||◌, Option, none, some, List, [], ◌∷◌, if◌then◌else◌,
}
use build_project.Msstd.MsList.{Node, Memory, load, M, pure, ◌>>=◌, ◌>>◌, set_next, ms_free}

pub record Pool : Type 0 where
  pub queue_head : ℕ
  pub shutdown : ℕ
  pub max_thread_num : ℤ
  pub cur_queue_size : ℕ

abbrev pub max_thread_pool_task : ℕ
max_thread_pool_task = 200

-- The pool that the code fills in; `none` outside is the write through a NULL pointer.
unfoldable pub ms_pool_thread_init : Option Pool → ℤ → Option (Option Pool)
ms_pool_thread_init none n = if is_negative n || is_zero n then some none else none
ms_pool_thread_init (some p) n =
    some (some (record { queue_head = 0; shutdown = 0; max_thread_num = n; cur_queue_size = 0 }))

-- `while (member->next != NULL)`. `none` is also a queue that the rounds do not get to the end of.
unfoldable pub last_member : ℕ → ℕ → M ℕ
last_member zero a = λ h. none
last_member (suc n) a = do c ← load a; if c.next == 0 then pure a else last_member n c.next

-- What the code does with the lock held. The rounds are one more than the tasks that were added.
unfoldable pub append_task : Pool → ℕ → M Pool
append_task p t =
    if p.queue_head == 0
    then pure (record p { queue_head = t; cur_queue_size = p.cur_queue_size + 1 })
    else do
      a ← last_member (suc p.cur_queue_size) p.queue_head
      set_next a t
      pure (record p { cur_queue_size = p.cur_queue_size + 1 })

-- The tests in front of the lock.
abbrev pub refuses : Pool → ℕ → Bool
refuses p t = t == 0 || ltb max_thread_pool_task p.cur_queue_size

unfoldable pub ms_pool_add_task : Pool → ℕ → M (ℤ × Pool)
ms_pool_add_task p t =
    if refuses p t then pure (minus_one, p) else do p' ← append_task p t; pure (pos 0, p')

-- The loop that frees the tasks from the head.
unfoldable pub free_tasks : ℕ → ℕ → M (Unit {0})
free_tasks zero a = λ h. none
free_tasks (suc n) a = if a == 0 then pure tt else do c ← load a; ms_free a; free_tasks n c.next

-- `join` is what the threads do until the last has ended, and `rounds` bounds the loop. The pool
-- itself is freed at the end.
unfoldable pub ms_pool_thread_uninit : (Pool → M Pool) → ℕ → Pool → M (ℤ × Option Pool)
ms_pool_thread_uninit join rounds p =
    if p.shutdown == 0
    then (do
      q ← join (record p { shutdown = 1 })
      free_tasks rounds q.queue_head
      pure (pos 0, none))
    else pure (minus_one, some p)
