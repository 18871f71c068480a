-- ===== src/Msstd/MsList/Iterator.antt =====
-- libs/msstd/thread_ex.c: the iterator of a list, which knows its node, where the link to that node
-- stands, and the node's position. `it->li` is the list that is passed with the iterator.
use build_project.Prelude.{
  ℕ, ◌+◌, ◌-◌, ◌==◌, ltb, leb, ℤ, pos, negsuc, minus_one, is_negative, eq_ℤ, Bool, true, ◌&&◌, ◌||◌,
  not, Option, none, some, if◌then◌else◌,
}
use build_project.Msstd.MsList.{
  MsList, Allocator, load, M, pure, ◌>>=◌, ◌>>◌, set_next, ms_free, at_least, ms_list_add,
}

-- The `ms_node_t **`: `&li->node`, or the `next` of the node at an address.
pub data Link : Type 0 where
  at_head : Link
  at_next : ℕ → Link

pub record Iterator : Type 0 where
  pub actual : ℕ
  pub prev : Link
  pub place : ℕ

unfoldable pub ms_list_iterator_has_elem : Iterator → MsList → Bool
ms_list_iterator_has_elem it li = not (it.actual == 0) && ltb it.place li.nb_elt

-- The element at the iterator, or NULL, as the functions return it.
abbrev pub element_or_null : Iterator → MsList → M ℕ
element_or_null it li =
    if ms_list_iterator_has_elem it li then (do c ← load it.actual; pure c.element) else pure 0

unfoldable pub ms_list_get_first : MsList → Iterator → M (ℕ × Iterator)
ms_list_get_first li it = if li.nb_elt == 0 then pure (0, record it { actual = 0 }) else do
  c ← load li.node
  pure (c.element, record { actual = li.node; prev = at_head; place = 0 })

unfoldable pub ms_list_get_next : Iterator → MsList → M (ℕ × Iterator)
ms_list_get_next it li = do
  c ← load it.actual
  let it' : Iterator = record { actual = c.next; prev = at_next it.actual; place = it.place + 1 }
  if ms_list_iterator_has_elem it' li
      then (do d ← load c.next; pure (d.element, it'))
      else pure (0, record it' { actual = 0 })

-- `*(iterator->prev) = n`
abbrev pub write_link : Link → ℕ → MsList → M MsList
write_link at_head n li = pure (record li { node = n })
write_link (at_next a) n li = do set_next a n; pure li

-- `*(iterator->prev)`
abbrev pub read_link : Link → MsList → M ℕ
read_link at_head li = pure li.node
read_link (at_next a) li = do c ← load a; pure c.next

unfoldable pub take_out : Iterator → MsList → M (Iterator × MsList)
take_out it li = do
  c ← load it.actual
  li' ← write_link it.prev c.next (record li { nb_elt = li.nb_elt - 1 })
  ms_free it.actual
  n ← read_link it.prev li'
  pure (record it { actual = n }, li')

unfoldable pub ms_list_iterator_remove : Iterator → MsList → M (ℕ × Iterator × MsList)
ms_list_iterator_remove it li = do
  r ← if ms_list_iterator_has_elem it li then take_out it li else pure (it, li)
  e ← element_or_null r.0 r.1
  pure (e, r.0, r.1)

-- `pos <= it->pos`
abbrev pub at_most : ℤ → ℕ → Bool
at_most (pos k) n = leb k n
at_most (negsuc k) n = true

abbrev pub clipped : ℤ → ℕ → ℤ
clipped i n = if eq_ℤ i minus_one || at_least i n then pos n else i

abbrev pub after_add : Iterator → ℤ → ℤ × Option MsList → ℤ × Iterator × Option MsList
after_add it i (n, none) = (minus_one, it, none)
after_add it i (n, some li) = if is_negative n then (minus_one, it, some li) else (
  pos li.nb_elt,
  (if at_most i it.place then record it { place = it.place + 1 } else it),
  some li,
)

unfoldable pub ms_list_iterator_add :
    Allocator → Iterator → MsList → ℕ → ℤ → M (ℤ × Iterator × Option MsList)
ms_list_iterator_add sys it li el i = do
  r ← ms_list_add sys (some li) el (clipped i li.nb_elt)
  pure (after_add it (clipped i li.nb_elt) r)
