-- ===== src/Msdb/Osd/Written.antt =====
-- write_osd and insert_osd execute one statement, written with the `%f` of the C library.
use build_project.Prelude.{
  Bool, true, false, ℤ, pos, minus_one, if◌then◌else◌, ℕ, is_zero, Bytes, some, ◌≡◌, refl, ap,
}
use build_project.Sys.{Trace, Env, Run, done, running, M, pure, ◌>>◌, and_then, ◌>>=◌, float_format}
use build_project.Ccsqlite.{sqlite_conn}
use build_project.Msdb.{
  file_lock, file_lock_name, write_mode, finish, file_unlock, run_update, execute,
}
use build_project.Msdb.Osd.{Osd, osd_update, osd_insert, write_osd, insert_osd}

and_then-pointwise :
    {A B : Type 0} (r : Run A) {k k' : A → Trace → Run B}
    → ((a : A) (t : Trace) → k a t ≡ k' a t)
    → and_then r k ≡ and_then r k'
unfolding and_then
and_then-pointwise (done a t) p = p a t
and_then-pointwise (running t) p = refl

-- A write depends on what its body does with the system at hand.
module _ (e : Env) (body body' : ℕ → M (Unit {0}))
    (same : (conn : ℕ) (u : Trace) → body conn e u ≡ body' conn e u) where
  opened-pointwise :
      (fd : ℤ) (ok : Bool) (conn : ℕ) (t : Trace)
      → (if ok then (do body conn; finish fd conn (pos 0)) else do file_unlock fd; pure minus_one) e
          t
        ≡ (if ok
              then (do body' conn; finish fd conn (pos 0))
              else do file_unlock fd; pure minus_one)
            e t
  unfolding ◌>>=◌
  opened-pointwise fd true conn t = ap (λ r. and_then r λ _. finish fd conn (pos 0) e) (same conn t)
  opened-pointwise fd false conn t = refl

  run_update-pointwise : (db : Bytes) (t : Trace) → run_update db body e t ≡ run_update db body' e t
  unfolding run_update ◌>>=◌
  run_update-pointwise db t =
      and_then-pointwise (file_lock (some file_lock_name) write_mode e t) λ fd t₁.
        and_then-pointwise (sqlite_conn (some db) e t₁)
          λ (r, conn) t₂. opened-pointwise fd (is_zero r) conn t₂

-- A statement that is written with `%f`.
abbrev formatted : ℕ → ((ℕ → Bytes) → Bytes) → ℕ → M (Unit {0})
formatted fuel sql conn = do fmt_f ← float_format; execute fuel (sql fmt_f) conn

formatted-execute :
    (e : Env) (fuel : ℕ) (sql : (ℕ → Bytes) → Bytes) (conn : ℕ) (u : Trace)
    → formatted fuel sql conn e u ≡ execute fuel (sql e.fmt_f) conn e u
unfolding float_format ◌>>=◌ and_then
formatted-execute e fuel sql conn u = refl

formatted_update :
    (e : Env) (fuel : ℕ) (sql : (ℕ → Bytes) → Bytes) (db : Bytes) (t : Trace)
    → run_update db (formatted fuel sql) e t ≡ run_update db (execute fuel (sql e.fmt_f)) e t
formatted_update e fuel sql =
    run_update-pointwise e (formatted fuel sql) (execute fuel (sql e.fmt_f))
      (formatted-execute e fuel sql)

module _ (e : Env) (fuel : ℕ) (db : Bytes) (osd : Osd) (t : Trace) where
  pub write_osd_one :
      write_osd fuel (some db) (some osd) e t
      ≡ run_update db (execute fuel (osd_update e.fmt_f osd)) e t
  unfolding write_osd
  write_osd_one = formatted_update e fuel (λ fmt_f. osd_update fmt_f osd) db t

  pub insert_osd_one :
      insert_osd fuel (some db) (some osd) e t
      ≡ run_update db (execute fuel (osd_insert e.fmt_f osd)) e t
  unfolding insert_osd
  insert_osd_one = formatted_update e fuel (λ fmt_f. osd_insert fmt_f osd) db t
