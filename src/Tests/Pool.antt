-- ===== src/Tests/Pool.antt =====
-- The theorems on the pool of threads at concrete inputs.
use build_project.Prelude.{
  ℕ, ◌==◌, ◌≤◌, pos, minus_one, none, some, [], ◌∷◌, ◌++◌, ◌≡◌, refl, arith, if◌then◌else◌,
}
use build_project.Msstd.MsList.{Memory, M, pure}
use build_project.Msstd.MsList.Chain.{Cells, Fresh}
use build_project.Msstd.MsList.Free.{AllFreed}
use build_project.Msstd.Pool.{Pool, append_task, ms_pool_thread_uninit}
use build_project.Msstd.Pool.Queue.{IsQueue, ms_pool_thread_uninit-AllFreed}
use build_project.Msstd.Pool.Steps.{System, pass, Run, stay, go, Run-IsQueue, Run-append_task}
use build_project.Tests.Lists.{two_cells, two_nodes}

abbrev two_tasks : Pool
two_tasks = record { queue_head = 8; shutdown = 0; max_thread_num = pos 4; cur_queue_size = 2 }

abbrev empty_pool : Pool
empty_pool = record { queue_head = 0; shutdown = 0; max_thread_num = pos 4; cur_queue_size = 0 }

-- Two tasks that are in no queue, at 8 and 16.
abbrev loose : Memory
loose q =
    if q == 8
    then some (record { next = 0; element = 5 })
    else if q == 16
    then some (record { next = 0; element = 7 })
    else none

abbrev start : System
start = record { memory = loose; pool = empty_pool; passed = [] }

abbrev both_passed : System
both_passed = record { memory = loose; pool = empty_pool; passed = (16, 7) ∷ (8, 5) ∷ [] }

empty-IsQueue : IsQueue loose empty_pool []
empty-IsQueue = record { head = refl; size = refl; chain = tt }

none_queued : (t : ℕ) (r : Cells) → IsQueue loose empty_pool r → Fresh t r
none_queued t [] is = tt
none_queued t (c ∷ r) is = absurd (ground (arith, is.size))

both_pass : Run 2 start both_passed
both_pass = go (pass start 8 5 refl (omega arith) refl tt (none_queued 8)) (
    go
      (pass (record start { passed = (8, 5) ∷ [] }) 16 7 refl (omega arith) refl (refl, tt)
        (none_queued 16))
      (stay both_passed))

Run-IsQueue_example : (r' : Cells) × IsQueue loose empty_pool r' × (0 ≤ 202)
Run-IsQueue_example = Run-IsQueue [] empty-IsQueue (omega arith) refl both_pass

Run-append_task_example :
    (r' : Cells) × (p : Pool) × (h : Memory) × IsQueue loose empty_pool r'
    × (append_task empty_pool 8 loose ≡ some (p, h))
    × IsQueue h p (r' ++ ((8, 5) ∷ []))
Run-append_task_example =
    Run-append_task [] 1 empty-IsQueue (omega arith) refl both_pass (omega arith)

abbrev ended : Pool → M Pool
ended p = pure p

ms_pool_thread_uninit-AllFreed_example :
    (h' : Memory) × (ms_pool_thread_uninit ended 3 two_tasks two_nodes ≡ some ((pos 0, none), h'))
    × AllFreed two_cells two_nodes h'
    × (ms_pool_thread_uninit ended 3 (record two_tasks { shutdown = 1 }) two_nodes
        ≡ some ((minus_one, some (record two_tasks { shutdown = 1 })), two_nodes))
ms_pool_thread_uninit-AllFreed_example =
    ms_pool_thread_uninit-AllFreed ended 3 two_tasks (record two_tasks { shutdown = 1 }) two_nodes
      two_nodes two_cells refl refl refl (refl, refl, (refl, tt), (refl, refl, tt, tt))
      (omega arith)
