-- ===== src/Msstd/MsList/Free.antt =====
-- libs/msstd/thread_ex.c: the functions that free a list. They take the elements out from the front
-- and hand each to a function, and free the list itself at the end; what that function does to the element is not in the model.
use build_project.Prelude.{
  ℕ, zero, suc, pos, eq_ℤ, Bool, true, Option, none, some, List, [], ◌∷◌, All, length, ◌≡◌, refl,
  ◌∙◌, arith, ap, if◌then◌else◌,
}
use build_project.Msstd.MsList.{
  MsList, Memory, M, pure, ◌>>=◌, ms_list_eol, ms_list_get, ms_list_remove,
}
use build_project.Msstd.MsList.Chain.{Cells, Fresh}
use build_project.Msstd.MsList.Places.{IsList}
use build_project.Msstd.MsList.Remove.{ms_list_get-element_of, ms_list_remove-remove_at}

-- `while (!ms_list_eol (li, pos))`, with the elements in the order in which they are handed on.
unfoldable pub drain : ℕ → Option MsList → M (List ℕ)
drain zero li = λ h. none
drain (suc n) li =
    if eq_ℤ (ms_list_eol li (pos 0)) (pos 0)
    then (do
      e ← ms_list_get li (pos 0)
      r ← ms_list_remove li (pos 0)
      es ← drain n r.1
      pure (e ∷ es))
    else pure []

-- The elements that `free_func` gets, if it is given. The rounds are one more than the elements.
unfoldable pub ms_list_special_free : Option MsList → Bool → M (List ℕ)
ms_list_special_free none given = pure []
ms_list_special_free (some li) given = do
  es ← drain (suc li.nb_elt) (some li)
  pure (if given then es else [])

-- The strings that ms_free gets.
unfoldable pub ms_list_ofchar_free : Option MsList → M (List ℕ)
ms_list_ofchar_free none = pure []
ms_list_ofchar_free (some li) = drain (suc li.nb_elt) (some li)

abbrev pub elements : Cells → List ℕ
elements [] = []
elements ((a, x) ∷ r) = x ∷ elements r

-- Every node is freed, and the rest of the memory stays.
abbrev pub AllFreed : Cells → Memory → Memory → Type 0
AllFreed r h h' = All (λ c. h' c.0 ≡ none) r × ((q : ℕ) → Fresh q r → h' q ≡ h q)

drain-elements :
    (li : MsList) (h : Memory) (r : Cells)
    → IsList h li r
    → (h' : Memory) × (drain (suc (length r)) (some li) h ≡ some (elements r, h')) × AllFreed r h h'
unfolding drain ms_list_eol
drain-elements li h [] is = (h, ground (arith, is.count), (tt, λ q f. refl))
drain-elements li h ((a, x) ∷ r) is =
    let (li', h₁, run, is', freed) =
      ms_list_remove-remove_at li 0 h ((a, x) ∷ r) is (omega arith) in
    let left : eq_ℤ (ms_list_eol (some li) (pos 0)) (pos 0) ≡ true = ground (arith, is.count) in
    let (h', rest, all) = drain-elements li' h₁ r is' in
    (
      h',
      rw (left, ◌>>=◌, ms_list_get-element_of li (pos 0) h ((a, x) ∷ r) is, run, rest) refl,
      ((all.1 a is.chain.2 ∙ freed.0, all.0), λ q f. all.1 q f.1 ∙ freed.1 q f),
    )

-- The elements are handed on in order, every node is freed, and the rest of the memory stays.
pub ms_list_special_free-elements :
    (li : MsList) (given : Bool) (h : Memory) (r : Cells)
    → IsList h li r
    → (h' : Memory) × (ms_list_special_free (some li) given h
        ≡ some (if given then elements r else [], h'))
      × (ms_list_ofchar_free (some li) h ≡ some (elements r, h'))
      × AllFreed r h h'
unfolding ms_list_special_free ms_list_ofchar_free
ms_list_special_free-elements li given h r is =
    let (h', run, freed) = drain-elements li h r is in
    let all : drain (suc li.nb_elt) (some li) h ≡ some (elements r, h') =
      ap (λ n. drain (suc n) (some li) h) is.count ∙ run in
    (h', rw (◌>>=◌, all) refl, all, freed)
