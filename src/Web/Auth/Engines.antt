-- ===== src/Web/Auth/Engines.antt =====
-- Which database a handler uses, and what becomes of `um_user` when the main engine appears.
use postfixblocker.Prelude.{◌≡◌, arith}
use postfixblocker.Exec.{Exec, Outcome}
use postfixblocker.Db.Table.{Table}
use postfixblocker.Db.Admins.{Admin}
use postfixblocker.Web.Auth.{World, um_db, with_um_db, on_um_db}

module _ (t : Table Admin) where
  open t use {Db}

  -- What is written to the database of the handler is what the handler then reads.
  pub um_db-with_um_db : (w : World t) (d : Db) → um_db t (with_um_db t w d) ≡ d
  um_db-with_um_db w d = ground arith

  pub with_um_db-session : (w : World t) (d : Db) → (with_um_db t w d).session ≡ w.session
  with_um_db-session w d = ground arith

  pub with_um_db_self : (w : World t) → with_um_db t w (um_db t w) ≡ w
  with_um_db_self w = ground arith

  -- Reading changes nothing.
  pub on_um_db-read :
      {A : Type 0} (m : Exec Db A) (w : World t) {r : Outcome A}
      → m (um_db t w) ≡ (r, um_db t w)
      → on_um_db t m w ≡ (r, w)
  on_um_db-read m w e = rw (e, with_um_db_self)
