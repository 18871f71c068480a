-- ===== src/Sys/Ends.antt =====
-- Postconditions of a run, and a rule for each way to build one.
use build_project.Sys.{Trace, Env, Run, done, running, M, pure, ◌>>=◌, and_then}

-- The run is over, and `P` holds of its value and history.
pub data Ends {A : Type 0} (P : A → Trace → Type 0) : Run A → Type 0 where
  ends : {a : A} {t : Trace} → P a t → Ends P (done a t)

-- The run is over, and `P` holds of its value and history, or it is in a retry loop, and `Q` holds
-- of its history.
pub data Safe {A : Type 0} (P : A → Trace → Type 0) (Q : Trace → Type 0) : Run A → Type 0 where
  over : {a : A} {t : Trace} → P a t → Safe P Q (done a t)
  hangs : {t : Trace} → Q t → Safe P Q (running t)

module _ {A B : Type 0} {P : A → Trace → Type 0} {R : B → Trace → Type 0} where
  and_then-Ends :
      {r : Run A} (k : A → Trace → Run B)
      → Ends P r
      → ((a : A) (t : Trace) → P a t → Ends R (k a t))
      → Ends R (and_then r k)
  unfolding and_then
  and_then-Ends k (ends p) next = next _ _ p

  and_then-Safe :
      {Q : Trace → Type 0} {r : Run A} (k : A → Trace → Run B)
      → Safe P Q r
      → ((a : A) (t : Trace) → P a t → Safe R Q (k a t))
      → Safe R Q (and_then r k)
  unfolding and_then
  and_then-Safe k (over p) next = next _ _ p
  and_then-Safe k (hangs q) next = hangs q

  pub bind :
      {e : Env} {t : Trace} (m : M A) (k : A → M B)
      → Ends P (m e t)
      → ((a : A) (t' : Trace) → P a t' → Ends R (k a e t'))
      → Ends R ((m >>= k) e t)
  unfolding ◌>>=◌
  bind {e} m k p next = and_then-Ends (λ a. k a e) p next

  pub bind-Safe :
      {Q : Trace → Type 0} {e : Env} {t : Trace} (m : M A) (k : A → M B)
      → Safe P Q (m e t)
      → ((a : A) (t' : Trace) → P a t' → Safe R Q (k a e t'))
      → Safe R Q ((m >>= k) e t)
  unfolding ◌>>=◌
  bind-Safe {e} m k p next = and_then-Safe (λ a. k a e) p next

module _ {A : Type 0} {P : A → Trace → Type 0} where
  pub pure-Ends : (e : Env) (t : Trace) (a : A) → P a t → Ends P (pure a e t)
  unfolding pure
  pure-Ends e t a p = ends p

  pub mono :
      {R : A → Trace → Type 0} {r : Run A}
      → Ends P r
      → ((a : A) (t : Trace) → P a t → R a t)
      → Ends R r
  mono (ends p) weaken = ends (weaken _ _ p)

  pub mono-Safe :
      {R : A → Trace → Type 0} {Q S : Trace → Type 0} {r : Run A}
      → Safe P Q r
      → ((a : A) (t : Trace) → P a t → R a t)
      → ((t : Trace) → Q t → S t)
      → Safe R S r
  mono-Safe (over p) f g = over (f _ _ p)
  mono-Safe (hangs q) f g = hangs (g _ q)

  pub Safe-Ends : {Q : Trace → Type 0} {r : Run A} → Ends P r → Safe P Q r
  Safe-Ends (ends p) = over p

-- The same by computation on the run, for code that branches.
abbrev pub EndsIn : {A : Type 0} → (A → Trace → Type 0) → Run A → Type 0
EndsIn P (done a t) = P a t
EndsIn P (running t) = ⊥

pub Ends-of : {A : Type 0} {P : A → Trace → Type 0} (r : Run A) → EndsIn P r → Ends P r
Ends-of (done a t) p = ends p
Ends-of (running t) p = absurd p

abbrev pub SafeIn : {A : Type 0} → (A → Trace → Type 0) → (Trace → Type 0) → Run A → Type 0
SafeIn P Q (done a t) = P a t
SafeIn P Q (running t) = Q t

pub Safe-of :
    {A : Type 0} {P : A → Trace → Type 0} {Q : Trace → Type 0} (r : Run A)
    → SafeIn P Q r
    → Safe P Q r
Safe-of (done a t) p = over p
Safe-of (running t) q = hangs q
