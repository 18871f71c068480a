-- ===== src/Msstd/MsList.antt =====
-- libs/msstd/thread_ex.c: the linked list. A node stands at an address, 0 is NULL, and a memory that
-- has no node where the code reads, writes or frees one is a fault, `none`. `nb_elt` is a number, so
-- a list has less than 2 ^ 31 elements. An element is a pointer that the list does not follow.
pub mod Chain
pub mod Places
pub mod Add
pub mod Remove
pub mod Iterator
pub mod Iterate
pub mod Free
pub mod Inserted
use build_project.Prelude.{
  ℕ, zero, suc, ◌+◌, ◌-◌, ◌==◌, leb, ltb, ℤ, pos, negsuc, minus_one, is_zero, is_negative, eq_ℤ,
  Bool, true, false, ◌&&◌, ◌||◌, not, Option, none, some, List, [], ◌∷◌, if◌then◌else◌,
}

pub record Node : Type 0 where
  pub next : ℕ
  pub element : ℕ

pub record MsList : Type 0 where
  pub nb_elt : ℕ
  pub node : ℕ

abbrev pub Memory : Type 0
Memory = ℕ → Option Node

abbrev pub update : Memory → ℕ → Option Node → Memory
update h p c q = if q == p then c else h q

-- What malloc answers, 0 for NULL, and what is in the new node. `__ms_malloc` asserts that it is not
-- NULL: where assertions are compiled in, the program ends there.
pub record Allocator : Type 0 where
  pub address : Memory → ℕ
  pub content : Memory → Node

-- A run: its answer with the memory that it leaves, or a fault.
abbrev pub M : Type 0 → Type 0
M A = Memory → Option (A × Memory)

-- What comes behind a run.
abbrev pub follow : {A B : Type 0} → (A → M B) → Option (A × Memory) → Option (B × Memory)
follow next none = none
follow next (some (x, g)) = next x g

infixl 5 ◌>>◌
abbrev pub ◌>>◌ : {B : Type 0} → M (Unit {0}) → M B → M B
first >> second = λ g. follow (λ _. second) (first g)

infixl 5 ◌>>=◌
abbrev pub ◌>>=◌ : {A B : Type 0} → M A → (A → M B) → M B
first >>= next = λ g. follow next (first g)

abbrev pub pure : {A : Type 0} → A → M A
pure x = λ g. some (x, g)

abbrev loaded : Memory → Option Node → Option (Node × Memory)
loaded h none = none
loaded h (some c) = some (c, h)

abbrev pub load : ℕ → M Node
load p h = loaded h (h p)

abbrev pub store : ℕ → Node → M (Unit {0})
store p c h = some (tt, update h p (some c))

abbrev pub set_next : ℕ → ℕ → M (Unit {0})
set_next p n = do c ← load p; store p (record c { next = n })

abbrev pub set_element : ℕ → ℕ → M (Unit {0})
set_element p e = do c ← load p; store p (record c { element = e })

abbrev pub ms_free : ℕ → M (Unit {0})
ms_free p = if p == 0 then pure tt else do _ ← load p; λ h. some (tt, update h p none)

module _ (sys : Allocator) where
  abbrev pub ms_malloc : M ℕ
  ms_malloc h =
      let p = sys.address h in some (p, if p == 0 then h else update h p (some (sys.content h)))

-- `while (pos > i)` along the nodes, with the rounds that are left.
unfoldable pub walk : ℕ → ℕ → M ℕ
walk zero p = pure p
walk (suc k) p = do c ← load p; walk k c.next

unfoldable pub ms_list_init : Option MsList → ℤ × Option MsList
ms_list_init none = (minus_one, none)
ms_list_init (some li) = (pos 0, some (record { nb_elt = 0; node = 0 }))

unfoldable pub ms_list_size : Option MsList → ℤ
ms_list_size none = minus_one
ms_list_size (some li) = pos li.nb_elt

-- `pos >= n`
abbrev pub at_least : ℤ → ℕ → Bool
at_least (pos k) n = leb n k
at_least (negsuc k) n = false

unfoldable pub ms_list_eol : Option MsList → ℤ → ℤ
ms_list_eol none i = minus_one
ms_list_eol (some li) i = if at_least i li.nb_elt then pos 1 else pos 0

-- `while (pos > i + 1)` from `i = 0`.
abbrev pub rounds : ℤ → ℕ
rounds (pos k) = k - 1
rounds (negsuc k) = 0

module _ (sys : Allocator) (li : MsList) (el : ℕ) where
  -- A new first node in front of `next`; `old` is `li->node` if there is no memory.
  add_first : ℕ → ℕ → M (ℤ × MsList)
  add_first next old = do
    p ← ms_malloc sys
    if p == 0 then pure (minus_one, record li { node = old }) else do
      set_element p el
      set_next p next
      pure (pos (li.nb_elt + 1), record { nb_elt = li.nb_elt + 1; node = p })

  -- A new node behind the node `a`, in front of `next`. At the end, where `next` is NULL, the link
  -- needs no repair, and gets the NULL that it has.
  add_behind : ℕ → ℕ → M (ℤ × MsList)
  add_behind a next = do
    p ← ms_malloc sys
    set_next a p
    if p == 0 then (do set_next a next; pure (minus_one, li)) else do
      set_element p el
      set_next p next
      pure (pos (li.nb_elt + 1), record li { nb_elt = li.nb_elt + 1 })

  -- `pos` behind `if (pos == -1 || pos >= li->nb_elt)`.
  abbrev pub adjusted : ℤ → ℤ
  adjusted i = if eq_ℤ i minus_one || at_least i li.nb_elt then pos li.nb_elt else i

  add_at : ℤ → M (ℤ × MsList)
  unfolding add_first add_behind
  add_at i = if is_zero i then add_first li.node li.node else do
    a ← walk (rounds i) li.node
    next ← if eq_ℤ i (pos li.nb_elt) then pure 0 else do c ← load a; pure c.next
    add_behind a next

  add_to : ℤ → M (ℤ × MsList)
  unfolding add_first add_at
  add_to i = if li.nb_elt == 0 then add_first 0 0 else add_at (adjusted i)

abbrev with_list : {A : Type 0} → A × MsList → M (A × Option MsList)
with_list (r, li) = pure (r, some li)

unfoldable pub ms_list_add : Allocator → Option MsList → ℕ → ℤ → M (ℤ × Option MsList)
unfolding add_to
ms_list_add sys none el i = pure (minus_one, none)
ms_list_add sys (some li) el i = do r ← add_to sys li el i; with_list r

-- The element, or 0 for NULL.
unfoldable pub ms_list_get : Option MsList → ℤ → M ℕ
ms_list_get none i = pure 0
ms_list_get (some li) (negsuc k) = pure 0
ms_list_get (some li) (pos k) =
    if leb li.nb_elt k then pure 0 else do a ← walk k li.node; c ← load a; pure c.element

remove_from : MsList → ℕ → M (ℤ × MsList)
remove_from li zero = do
  c ← load li.node
  ms_free li.node
  pure (pos (li.nb_elt - 1), record { nb_elt = li.nb_elt - 1; node = c.next })
remove_from li (suc k) = do
  a ← walk k li.node
  c ← load a
  gone ← load c.next
  set_next a gone.next
  ms_free c.next
  pure (pos (li.nb_elt - 1), record li { nb_elt = li.nb_elt - 1 })

unfoldable pub ms_list_remove : Option MsList → ℤ → M (ℤ × Option MsList)
unfolding remove_from
ms_list_remove none i = pure (minus_one, none)
ms_list_remove (some li) (negsuc k) = pure (minus_one, some li)
ms_list_remove (some li) (pos k) =
    if leb li.nb_elt k then pure (minus_one, some li) else do r ← remove_from li k; with_list r
