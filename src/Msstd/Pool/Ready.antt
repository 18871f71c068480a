-- ===== src/Msstd/Pool/Ready.antt =====
-- Tasks between the test of ms_pool_add_task and its lock: distinct, and in no queue.
use build_project.Prelude.{
  ℕ, zero, suc, ◌+◌, ◌<◌, ◌==◌, false, [], ◌∷◌, ◌++◌, All, length, ◌≡◌, ◌∙◌, arith,
}
use build_project.Msstd.MsList.{Memory}
use build_project.Msstd.MsList.Chain.{
  Cells, Fresh, address_at, element_at, remove_at, Fresh-address, Fresh-remove_at, eq_comm,
}
use build_project.Msstd.Pool.Queue.{IsReady}

-- The tasks are at distinct addresses.
abbrev pub Distinct : Cells → Type 0
Distinct [] = Unit {0}
Distinct (c ∷ r) = Fresh c.0 r × Distinct r

pub All-at :
    (P : ℕ × ℕ → Type 0) (r : Cells) (k : ℕ)
    → All P r
    → k < length r
    → P (address_at r k, element_at r k)
All-at P [] k all lt = absurd (omega arith)
All-at P (c ∷ r) zero all lt = all.0
All-at P (c ∷ r) (suc k) all lt = All-at P r k all.1 (omega arith)

pub All-remove_at : (P : ℕ × ℕ → Type 0) (r : Cells) (k : ℕ) → All P r → All P (remove_at k r)
All-remove_at P [] k all = tt
All-remove_at P (c ∷ r) zero all = all.1
All-remove_at P (c ∷ r) (suc k) all = (all.0, All-remove_at P r k all.1)

pub Distinct-remove_at : (r : Cells) (k : ℕ) → Distinct r → Distinct (remove_at k r)
Distinct-remove_at [] k d = tt
Distinct-remove_at (c ∷ r) zero d = d.1
Distinct-remove_at (c ∷ r) (suc k) d = (Fresh-remove_at c.0 k r d.0, Distinct-remove_at r k d.1)

pub Distinct-at :
    (r : Cells) (k : ℕ) → Distinct r → k < length r → Fresh (address_at r k) (remove_at k r)
Distinct-at [] k d lt = absurd (omega arith)
Distinct-at (c ∷ r) zero d lt = d.0
Distinct-at (c ∷ r) (suc k) d lt =
    (eq_comm _ _ (Fresh-address c.0 r k d.0 (omega arith)), Distinct-at r k d.1 (omega arith))

Fresh-snoc : (a t e : ℕ) (r : Cells) → Fresh a r → (t == a) ≡ false → Fresh a (r ++ ((t, e) ∷ []))
Fresh-snoc a t e [] f other = (other, tt)
Fresh-snoc a t e (c ∷ r) f other = (f.0, Fresh-snoc a t e r f.1 other)

pub length-remove : (r : Cells) (k : ℕ) → k < length r → length r ≡ length (remove_at k r) + 1
length-remove [] k lt = absurd (omega arith)
length-remove (c ∷ r) zero lt = omega arith
length-remove (c ∷ r) (suc k) lt = ground (arith, length-remove r k (omega arith))

abbrev pub Ready : Memory → Cells → ℕ × ℕ → Type 0
Ready h r c = IsReady h c.0 c.1 r

-- The other tasks stay ready when the task `t` is added.
pub Ready-snoc :
    (h h' : Memory) (r w : Cells) (t e : ℕ)
    → ((q : ℕ) → Fresh q r → h' q ≡ h q)
    → All (Ready h r) w
    → Fresh t w
    → All (Ready h' (r ++ ((t, e) ∷ []))) w
Ready-snoc h h' r [] t e same all f = tt
Ready-snoc h h' r (c ∷ w) t e same all f = (
  record {
    live = all.0.live;
    alone = same c.0 all.0.fresh ∙ all.0.alone;
    fresh = Fresh-snoc c.0 t e r all.0.fresh (eq_comm _ _ f.0);
  },
  Ready-snoc h h' r w t e same all.1 f.1,
)
