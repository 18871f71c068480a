-- ===== src/Msstd/Tracker.antt =====
-- libs/msstd/memory.c, as it is built with MS_LEAK_DETECT: a list of the blocks that are in use. A
-- `struct mem_leak` is a node of a memory, whose `element` is `info.address`; the fields that only the
-- reports read are left out. `ms_malloc` stands here for malloc. Each function runs with the lock of
-- the list. Where the code asserts that there was memory, the model goes on as the code does without
-- assertions.
pub mod Kept
pub mod Blocks
pub mod Allocated
use build_project.Prelude.{
  ℕ, zero, suc, ◌+◌, ◌*◌, ◌==◌, Bool, true, false, ◌||◌, Option, none, some, if◌then◌else◌,
}
use build_project.Msstd.MsList.{
  Node, Memory, update, Allocator, load, M, pure, ◌>>=◌, ◌>>◌, set_next, set_element, walk,
  ms_malloc,
}

pub record Tracker : Type 0 where
  pub ptr_start : ℕ
  pub ptr_next : ℕ

abbrev pub free : ℕ → M (Unit {0})
free p = do _ ← load p; λ h. some (tt, update h p none)

-- `add`: the node for a block goes behind `ptr_next`. Without memory for it the block is not listed.
unfoldable pub add : Allocator → Tracker → ℕ → M Tracker
add sys tr block = do
  leak ← ms_malloc sys
  if leak == 0 then pure tr else do
    set_element leak block
    set_next leak 0
    if tr.ptr_start == 0
        then pure (record { ptr_start = leak; ptr_next = leak })
        else do set_next tr.ptr_next leak; pure (record tr { ptr_next = leak })

-- `ptr_next`, where `leak` is the node in front of the one that went.
abbrev pub end_at : Tracker → ℕ → ℕ → Tracker
end_at tr leak next = if next == 0 then record tr { ptr_next = leak } else tr

unfoldable pub erase : Tracker → ℕ → M Tracker
erase tr zero = do c ← load tr.ptr_start; free tr.ptr_start; pure (record tr { ptr_start = c.next })
erase tr (suc k) = do
  leak ← walk k tr.ptr_start
  c ← load leak
  temp ← load c.next
  set_next leak temp.next
  free c.next
  pure (end_at tr leak temp.next)

-- The loop of `remove_mem_info` and `replace_mem_info`: the index and the node of a block. Its rounds
-- are one more than the nodes at most.
unfoldable pub find : ℕ → ℕ → ℕ → ℕ → M (Option (ℕ × ℕ))
find zero block leak index = λ h. none
find (suc n) block leak index = if leak == 0 then pure none else do
  c ← load leak
  if c.element == block then pure (some (index, leak)) else find n block c.next (index + 1)

abbrev pub erase_found : Tracker → Option (ℕ × ℕ) → M Tracker
erase_found tr none = pure tr
erase_found tr (some (index, leak)) = erase tr index

unfoldable pub remove_mem_info : ℕ → Tracker → ℕ → M Tracker
remove_mem_info rounds tr block = do found ← find rounds block tr.ptr_start 0; erase_found tr found

abbrev pub replace_found : ℕ → Option (ℕ × ℕ) → M (Unit {0})
replace_found block none = pure tt
replace_found block (some (index, leak)) = set_element leak block

unfoldable pub replace_mem_info : ℕ → Tracker → ℕ → ℕ → M (Unit {0})
replace_mem_info rounds tr old new = do
  found ← find rounds old tr.ptr_start 0
  replace_found new found

-- The allocations; `block` is what the C library answers.
unfoldable pub tracked_malloc : Allocator → Tracker → ℕ → ℕ → M (ℕ × Tracker)
tracked_malloc sys tr size block =
    if size == 0 || block == 0 then pure (0, tr) else do tr' ← add sys tr block; pure (block, tr')

unfoldable pub tracked_calloc : Allocator → Tracker → ℕ → ℕ → ℕ → M (ℕ × Tracker)
tracked_calloc sys tr n size block =
    if n == 0 || size == 0 then pure (0, tr) else do tr' ← add sys tr block; pure (block, tr')

unfoldable pub tracked_realloc : ℕ → Tracker → ℕ → ℕ → M ℕ
tracked_realloc rounds tr ptr block =
    if block == 0 || block == ptr
    then pure block
    else do replace_mem_info rounds tr ptr block; pure block

unfoldable pub tracked_free : ℕ → Tracker → ℕ → M Tracker
tracked_free rounds tr block = if block == 0 then pure tr else remove_mem_info rounds tr block

-- `mem_get_cur_list`, from a node on.
unfoldable pub count_from : ℕ → ℕ → M ℕ
count_from zero leak = λ h. none
count_from (suc n) leak =
    if leak == 0 then pure 0 else do c ← load leak; m ← count_from n c.next; pure (m + 1)

-- The loop of `__ms_clear`; `ptr_next` stays.
unfoldable pub clear_from : ℕ → ℕ → M (Unit {0})
clear_from zero leak = λ h. none
clear_from (suc n) leak =
    if leak == 0 then pure tt else do c ← load leak; free leak; clear_from n c.next

unfoldable pub clear : ℕ → Tracker → M Tracker
clear rounds tr = do clear_from rounds tr.ptr_start; pure (record tr { ptr_start = 0 })
