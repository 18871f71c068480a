-- ===== src/Msdb/Rows.antt =====
-- The loop that reads the rows of a query into an array.
use build_project.Prelude.{
  Bool, false, ◌==◌, ◌∙◌, ℕ, zero, suc, ◌+◌, ◌≤◌, is_zero, Option, ◌≡◌, refl, ap, arith, Bool-cases,
  inl, inr, ℤ, pos, minus_one, ◌⊎◌, some, Bytes,
}
use build_project.Sys.{Trace, Env, M, pure, ◌>>=◌}
use build_project.Sys.Ends.{Ends, bind, mono, pure-Ends}
use build_project.Msdb.{Array, store, rows_loop, run_query}
use build_project.Msdb.Held.{Reads}
use build_project.Msdb.Served.{sqlite_query_next-Ends, run_query-either}

-- The cells of an array that were read over from `i` on, with `left` at most: the next place is `n`,
-- there is a row if there is room for one, and the cells from `n` on are as they were.
pub record Filled {A : Type 0} (i left : ℕ) (cells cells' : Array A) (n : ℕ) : Type 0 where
  pub onwards : i ≤ n
  pub count_bound : n ≤ i + left
  pub first_row : 1 ≤ left → i + 1 ≤ n
  pub rest_kept : (k : ℕ) → n ≤ k → cells' k ≡ cells k

Filled-none : {A : Type 0} (i : ℕ) (cells : Array A) → Filled i 0 cells cells i
Filled-none i cells = record {
  onwards = omega arith;
  count_bound = omega arith;
  first_row = λ room. absurd (omega arith);
  rest_kept = λ k le. refl;
}

store_beyond :
    {A : Type 0} (cells : Array A) (i k : ℕ) (x : A) → i + 1 ≤ k → store cells i x k ≡ cells k
store_beyond cells i k x le = let other : (k == i) ≡ false = ground (arith, le) in rw (other) refl

Filled-last :
    {A : Type 0} (i left : ℕ) (cells : Array A) (x : A)
    → Filled i (suc left) cells (store cells i x) (i + 1)
Filled-last i left cells x = record {
  onwards = omega arith;
  count_bound = omega arith;
  first_row = λ room. omega arith;
  rest_kept = λ k le. store_beyond cells i k x le;
}

Filled-more :
    {A : Type 0} {i left n : ℕ} {cells cells' : Array A} (x : A)
    → Filled (i + 1) left (store cells i x) cells' n
    → Filled i (suc left) cells cells' n
Filled-more {A} {i} {left} {n} {cells} x f = record {
  onwards = omega (arith, f.onwards);
  count_bound = omega (arith, f.count_bound);
  first_row = λ room. f.onwards;
  rest_kept = λ k le. f.rest_kept k le ∙ store_beyond cells i k x (omega (arith, f.onwards, le));
}

module _ (e : Env) {A : Type 0} (stmt : ℕ) (row : A → M A) (p : (a : A) → Reads stmt (row a)) where
  pub rows_loop-Filled :
      (left i : ℕ) (cells : Array A) (t : Trace)
      → Ends (λ (cells', n) _. Filled i left cells cells' n) (rows_loop stmt row left i cells e t)
  unfolding rows_loop
  rows_loop-Filled zero i cells t = pure-Ends e t _ (Filled-none i cells)
  rows_loop-Filled (suc left) i cells t = bind _ _ ((p (cells i)).returns e t) λ x t₁ _.
      bind _ _ (sqlite_query_next-Ends e stmt t₁) λ r t₂ _. elim (Bool-cases (is_zero r)) [
        | inl more ↦ rw more (
            mono (rows_loop-Filled left (i + 1) (store cells i x) t₂)
              λ (cells', n) t₃ f. Filled-more x f)
        | inr last ↦ rw last (pure-Ends e t₂ _ (Filled-last i left cells x))
      ]

-- What a read of many rows gives back, with `left` rounds at most and `count` as it was before.
abbrev pub FilledOr : {A : Type 0} → ℕ → Array A → ℕ → ℤ × Option (Array A) × ℕ → Type 0
FilledOr {A} left cells count (r, cells', n) =
    (new : Array A) × (cells' ≡ some new)
    × (((r ≡ pos 0) × Filled 0 left cells new n)
        ⊎ ((r ≡ minus_one) × (new ≡ cells) × ((n ≡ count) ⊎ (n ≡ 0))))

pub rows-FilledOr :
    (e : Env) {A : Type 0} (db sql : Bytes) (check : Bool) (row : ℕ → A → M A) (left : ℕ)
    (cells : Array A) (count : ℕ) (t : Trace)
    → ((stmt : ℕ) (a : A) → Reads stmt (row stmt a))
    → Ends
        (λ a _. FilledOr left cells count a)
        (run_query db sql check
          (λ stmt. do
            (cells', i) ← rows_loop stmt (row stmt) left 0 cells
            pure (pos 0, some cells', i))
          (minus_one, some cells, count)
          (minus_one, some cells, 0)
          e
          t)
rows-FilledOr e db sql check row left cells count t p =
    mono
      (run_query-either e db sql check _ _ _ t λ stmt u.
        bind _ _ (rows_loop-Filled e stmt (row stmt) (p stmt) left 0 cells u)
          λ (cells', n) v f. pure-Ends e v _ (cells', refl, inl (refl, f)))
      λ (r, cells', n) u o. elim o [
        | inl fine ↦ fine
        | inr (inl same) ↦
            (cells, ap (λ q. q.1) same, inr (ap (λ q. q.0) same, refl, inl (ap (λ q. q.2) same)))
        | inr (inr same) ↦
            (cells, ap (λ q. q.1) same, inr (ap (λ q. q.0) same, refl, inr (ap (λ q. q.2) same)))
      ]

-- What a read of one row gives back: 0, or -1 and the struct as it was.
abbrev pub ZeroOr : {A : Type 0} → A → ℤ × Option A → Type 0
ZeroOr s (r, s') = (r ≡ pos 0) ⊎ (r ≡ minus_one) × (s' ≡ some s)
