-- ===== src/Tests/Lists.antt =====
-- The theorems on the linked list at concrete inputs.
use build_project.Prelude.{
  inr, ◌==◌, pos, true, none, some, [], ◌∷◌, ◌≡◌, refl, arith, if◌then◌else◌,
}
use build_project.Msstd.MsList.{MsList, Memory, Allocator, ms_list_add, ms_list_remove}
use build_project.Msstd.MsList.Chain.{Cells, address_at}
use build_project.Msstd.MsList.Places.{IsList, IsFresh, SameBeyond}
use build_project.Msstd.MsList.Add.{ms_list_add-insert_at}
use build_project.Msstd.MsList.Remove.{Freed, ms_list_remove-remove_at}
use build_project.Msstd.MsList.Iterator.{
  at_head, at_next, Iterator, ms_list_iterator_remove, ms_list_iterator_add,
}
use build_project.Msstd.MsList.Iterate.{IsAt, ms_list_iterator_remove-remove_at}
use build_project.Msstd.MsList.Inserted.{ms_list_iterator_add-moved}
use build_project.Msstd.MsList.Free.{
  AllFreed, ms_list_special_free, ms_list_ofchar_free, ms_list_special_free-elements,
}

-- Two nodes, at 8 and 16, with the elements 5 and 7.
abbrev pub two_cells : Cells
two_cells = (8, 5) ∷ (16, 7) ∷ []

abbrev pub two_nodes : Memory
two_nodes q =
    if q == 8
    then some (record { next = 16; element = 5 })
    else if q == 16
    then some (record { next = 0; element = 7 })
    else none

abbrev two : MsList
two = record { nb_elt = 2; node = 8 }

abbrev pub malloc_24 : Allocator
malloc_24 = record { address = λ h. 24; content = λ h. record { next = 3; element = 3 } }

abbrev malloc_none : Allocator
malloc_none = record { address = λ h. 0; content = λ h. record { next = 3; element = 3 } }

two-IsList : IsList two_nodes two two_cells
two-IsList = record {
  head = refl;
  count = refl;
  chain = (refl, refl, (refl, tt), (refl, refl, tt, tt));
}

pub malloc_24-IsFresh : IsFresh malloc_24 two_nodes
malloc_24-IsFresh = record { unused = refl; not_null = refl }

abbrev at_second : Iterator
at_second = record { actual = 16; prev = at_next 8; place = 1 }

abbrev at_first : Iterator
at_first = record { actual = 8; prev = at_head; place = 0 }

at_second-IsAt : IsAt two_cells 1 at_second
at_second-IsAt = record { here = refl; link = refl; counted = refl }

at_first-IsAt : IsAt two_cells 0 at_first
at_first-IsAt = record { here = refl; link = refl; counted = refl }

ms_list_add-insert_at_example :
    (li' : MsList) × (h' : Memory) × (ms_list_add malloc_24 (some two) 6 (pos 1) two_nodes
      ≡ some ((pos 3, some li'), h'))
    × IsList h' li' ((8, 5) ∷ (24, 6) ∷ (16, 7) ∷ [])
    × SameBeyond two_cells 24 two_nodes h'
ms_list_add-insert_at_example =
    ms_list_add-insert_at malloc_24 two 6 (pos 1) two_nodes two_cells malloc_24-IsFresh two-IsList

ms_list_remove-remove_at_example :
    (li' : MsList) × (h' : Memory) × (ms_list_remove (some two) (pos 1) two_nodes
      ≡ some ((pos 1, some li'), h'))
    × IsList h' li' ((8, 5) ∷ [])
    × Freed two_cells 1 two_nodes h'
ms_list_remove-remove_at_example =
    ms_list_remove-remove_at two 1 two_nodes two_cells two-IsList (omega arith)

ms_list_iterator_remove-remove_at_example :
    (it' : Iterator) × (li' : MsList) × (h' : Memory) × (ms_list_iterator_remove at_second two
        two_nodes
      ≡ some ((0, it', li'), h'))
    × IsList h' li' ((8, 5) ∷ [])
    × IsAt ((8, 5) ∷ []) 1 it'
    × Freed two_cells 1 two_nodes h'
ms_list_iterator_remove-remove_at_example =
    ms_list_iterator_remove-remove_at two_nodes two two_cells 1 at_second two-IsList (omega arith)
      at_second-IsAt

ms_list_iterator_add-moved_example :
    (it' : Iterator) × (li' : MsList) × (h' : Memory) × (ms_list_iterator_add malloc_24 at_second
        two 6
        (pos 0)
        two_nodes
      ≡ some ((pos 3, it', some li'), h'))
    × IsList h' li' ((24, 6) ∷ two_cells)
    × (it'.place ≡ 2)
    × (it'.actual ≡ 16)
    × (it'.actual ≡ address_at ((24, 6) ∷ two_cells) it'.place)
ms_list_iterator_add-moved_example =
    ms_list_iterator_add-moved malloc_24 at_second two 6 (pos 0) two_nodes two_cells
      malloc_24-IsFresh two-IsList (inr (0, refl)) refl (omega arith)

ms_list_special_free-elements_example :
    (h' : Memory) × (ms_list_special_free (some two) true two_nodes ≡ some (5 ∷ 7 ∷ [], h'))
    × (ms_list_ofchar_free (some two) two_nodes ≡ some (5 ∷ 7 ∷ [], h'))
    × AllFreed two_cells two_nodes h'
ms_list_special_free-elements_example =
    ms_list_special_free-elements two true two_nodes two_cells two-IsList
