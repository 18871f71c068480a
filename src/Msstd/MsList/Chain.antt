-- ===== src/Msstd/MsList/Chain.antt =====
-- The nodes of a list as a chain in memory, and how a link is put in and taken out.
use build_project.Prelude.{
  ℕ, zero, suc, ◌<◌, ◌==◌, false, none, some, List, [], ◌∷◌, All, length, ◌≡◌, refl, sym, ◌∙◌, ap,
  arith,
}
use build_project.Msstd.MsList.{Memory, walk}

-- The nodes in order, each with its address and its element.
abbrev pub Cells : Type 0
Cells = List (ℕ × ℕ)

abbrev pub first : Cells → ℕ
first [] = 0
first ((a, x) ∷ r) = a

abbrev pub Fresh : ℕ → Cells → Type 0
Fresh a r = All (λ c. (c.0 == a) ≡ false) r

-- The memory holds the nodes, each linked to the next and the last to NULL, at distinct addresses.
abbrev pub Chain : Memory → Cells → Type 0
Chain h [] = Unit {0}
Chain h ((a, x) ∷ r) =
    ((a == 0) ≡ false)
    × (h a ≡ some (record { next = first r; element = x }))
    × Fresh a r
    × Chain h r

abbrev pub address_at : Cells → ℕ → ℕ
address_at [] k = 0
address_at ((a, x) ∷ r) zero = a
address_at ((a, x) ∷ r) (suc k) = address_at r k

abbrev pub element_at : Cells → ℕ → ℕ
element_at [] k = 0
element_at ((a, x) ∷ r) zero = x
element_at ((a, x) ∷ r) (suc k) = element_at r k

abbrev pub insert_at : ℕ → ℕ × ℕ → Cells → Cells
insert_at zero c r = c ∷ r
insert_at (suc k) c [] = c ∷ []
insert_at (suc k) c (b ∷ r) = b ∷ insert_at k c r

abbrev pub remove_at : ℕ → Cells → Cells
remove_at k [] = []
remove_at zero (b ∷ r) = r
remove_at (suc k) (b ∷ r) = b ∷ remove_at k r

-- The memories agree away from `a` and `b`.
abbrev pub SameBut : ℕ → ℕ → Memory → Memory → Type 0
SameBut a b h h' = (q : ℕ) → (q == a) ≡ false → (q == b) ≡ false → h' q ≡ h q

pub eq_comm : (a b : ℕ) → (a == b) ≡ false → (b == a) ≡ false
eq_comm a b h = ground arith

pub Chain-same :
    (h h' : Memory) (r : Cells) (a b : ℕ)
    → SameBut a b h h'
    → Fresh a r
    → Fresh b r
    → Chain h r
    → Chain h' r
Chain-same h h' [] a b same fa fb c = tt
Chain-same h h' ((q, x) ∷ r) a b same fa fb (live, here, fresh, rest) =
    (live, same q fa.0 fb.0 ∙ here, fresh, Chain-same h h' r a b same fa.1 fb.1 rest)

pub Chain-all : (h h' : Memory) (r : Cells) → ((q : ℕ) → h' q ≡ h q) → Chain h r → Chain h' r
Chain-all h h' [] same c = tt
Chain-all h h' ((a, x) ∷ r) same (live, here, fresh, rest) =
    (live, same a ∙ here, fresh, Chain-all h h' r same rest)

-- An address without a node is not in the chain.
pub Fresh-none : (h : Memory) (r : Cells) (p : ℕ) → Chain h r → h p ≡ none → Fresh p r
Fresh-none h [] p c free = tt
Fresh-none h ((a, x) ∷ r) p (live, here, fresh, rest) free =
    (ground (arith), Fresh-none h r p rest free)

pub Fresh-address :
    (a : ℕ) (r : Cells) (k : ℕ) → Fresh a r → k < length r → (address_at r k == a) ≡ false
Fresh-address a [] k f lt = absurd (omega arith)
Fresh-address a ((b, x) ∷ r) zero f lt = f.0
Fresh-address a ((b, x) ∷ r) (suc k) f lt = Fresh-address a r k f.1 (omega arith)

pub Fresh-insert_at :
    (a : ℕ) (k p x : ℕ) (r : Cells) → Fresh a r → (p == a) ≡ false → Fresh a (insert_at k (p, x) r)
Fresh-insert_at a zero p x r f other = (other, f)
Fresh-insert_at a (suc k) p x [] f other = (other, tt)
Fresh-insert_at a (suc k) p x (b ∷ r) f other = (f.0, Fresh-insert_at a k p x r f.1 other)

pub Fresh-remove_at : (a k : ℕ) (r : Cells) → Fresh a r → Fresh a (remove_at k r)
Fresh-remove_at a k [] f = tt
Fresh-remove_at a zero (b ∷ r) f = f.1
Fresh-remove_at a (suc k) (b ∷ r) f = (f.0, Fresh-remove_at a k r f.1)

pub first-address_at : (r : Cells) → first r ≡ address_at r 0
first-address_at [] = refl
first-address_at ((a, x) ∷ r) = refl

-- The walk reaches the node that it counts to, and changes nothing.
pub walk-address_at :
    (h : Memory) (r : Cells) (k : ℕ)
    → Chain h r
    → k < length r
    → walk k (first r) h ≡ some (address_at r k, h)
unfolding walk
walk-address_at h [] k c lt = absurd (omega arith)
walk-address_at h ((a, x) ∷ r) zero c lt = refl
walk-address_at h ((a, x) ∷ r) (suc k) (live, here, fresh, rest) lt =
    ground (arith, walk-address_at h r k rest (omega arith))

-- The node that the chain has at a place.
pub Chain-at :
    (h : Memory) (r : Cells) (k : ℕ)
    → Chain h r
    → k < length r
    → h (address_at r k) ≡ some (record { next = address_at r (suc k); element = element_at r k })
Chain-at h [] k c lt = absurd (omega arith)
Chain-at h ((a, x) ∷ []) zero c lt = c.1
Chain-at h ((a, x) ∷ (b, y) ∷ r) zero c lt = c.1
Chain-at h ((a, x) ∷ r) (suc k) c lt = Chain-at h r k c.3 (omega arith)

-- A new node behind the one at `k`.
pub Chain-link :
    (h h' : Memory) (r : Cells) (k p el : ℕ)
    → Chain h r
    → k < length r
    → Fresh p r
    → (p == 0) ≡ false
    → SameBut (address_at r k) p h h'
    → h' (address_at r k) ≡ some (record { next = p; element = element_at r k })
    → h' p ≡ some (record { next = address_at r (suc k); element = el })
    → Chain h' (insert_at (suc k) (p, el) r)
Chain-link h h' [] k p el c lt free new same link added = absurd (omega arith)
Chain-link h h' ((a, x) ∷ r) zero p el (live, here, fresh, rest) lt fp new same link added = (
  live,
  link,
  (eq_comm a p fp.0, fresh),
  (
    new,
    added ∙ ap (λ n. some (record { next = n; element = el })) (sym (first-address_at r)),
    fp.1,
    Chain-same h h' r a p same fresh fp.1 rest,
  ),
)
Chain-link h h' ((a, x) ∷ (b, y) ∷ r) (suc k) p el (live, here, fresh, rest) lt fp new same link
      added =
    (
      live,
      same a (eq_comm _ a (Fresh-address a ((b, y) ∷ r) k fresh (omega arith))) fp.0 ∙ here,
      Fresh-insert_at a (suc k) p el ((b, y) ∷ r) fresh (eq_comm a p fp.0),
      Chain-link h h' ((b, y) ∷ r) k p el rest (omega arith) fp.1 new same link added,
    )
Chain-link h h' ((a, x) ∷ []) (suc k) p el c lt free new same link added = absurd (omega arith)

-- The node behind the one at `k` taken out.
pub Chain-unlink :
    (h h' : Memory) (r : Cells) (k : ℕ)
    → Chain h r
    → suc k < length r
    → SameBut (address_at r k) (address_at r (suc k)) h h'
    → h' (address_at r k)
      ≡ some (record { next = address_at r (suc (suc k)); element = element_at r k })
    → Chain h' (remove_at (suc k) r)
Chain-unlink h h' [] k c lt same link = absurd (omega arith)
Chain-unlink h h' ((a, x) ∷ []) k c lt same link = absurd (omega arith)
Chain-unlink h h' ((a, x) ∷ (b, y) ∷ r) zero (live, here, fresh, rest) lt same link = (
  live,
  link ∙ ap (λ n. some (record { next = n; element = x })) (sym (first-address_at r)),
  fresh.1,
  Chain-same h h' r a b same fresh.1 rest.2 rest.3,
)
Chain-unlink h h' ((a, x) ∷ (b, y) ∷ r) (suc k) (live, here, fresh, rest) lt same link = (
  live,
  same a (eq_comm _ a (Fresh-address a ((b, y) ∷ r) k fresh (omega arith)))
        (eq_comm _ a (Fresh-address a ((b, y) ∷ r) (suc k) fresh (omega arith)))
      ∙ here,
  Fresh-remove_at a (suc k) ((b, y) ∷ r) fresh,
  Chain-unlink h h' ((b, y) ∷ r) k rest (omega arith) same link,
)
