-- ===== src/Web/Auth/Login.antt =====
-- What `password_login` answers, and what it leaves in the session.
use postfixblocker.Prelude.{
  ℕ, ◌≡◌, refl, ap, ◌∙◌, Bool, true, false, Option, none, some, [], if◌then◌else◌, Bool-cases, inl,
  inr,
}
use postfixblocker.Text.{Text, codes, ==_self}
use postfixblocker.Exec.{ok, Exec, Outcome}
use postfixblocker.Db.Table.{Table, IsTable, row_count}
use postfixblocker.Db.Admins.{
  Admin, Hashing, seed_default_admin, check_admin_password, get_admin_by_username, password_matches,
  default_admin,
}
use postfixblocker.Db.Admins.Laws.{
  IsHashing, get_admin_lem, check_admin_password_lem, seed_default_admin-row,
}
use postfixblocker.Web.Json.{Fields, obj, get_field, stripped_or}
use postfixblocker.Web.Http.{Response, status, error_response}
use postfixblocker.Web.Auth.{
  Env, World, Session, default_username, default_password, must_change, um_db, with_um_db, on_um_db,
  set_logged_in, finish_login, seed_admin, login_with, password_login,
}
use postfixblocker.Web.Auth.Engines.{um_db-with_um_db, on_um_db-read, with_um_db-session}

module _ (t : Table Admin) (laws : IsTable t) (hashing : Hashing) (count : Text → Exec t.Db ℕ)
    (driver_probe : Text → Exec t.Db Bool)
    (count_lem : (k : Text) (s : t.Db) → count k s ≡ (ok (row_count (IsTable.row laws s k)), s))
    (env : Env) where
  open t use {Db}
  open laws use {row}

  -- The database once the default admin is seeded.
  abbrev pub seeded : World t → Db
  seeded w =
      (seed_default_admin t hashing count driver_probe (default_username env) default_password
        (um_db t w)).1

  seed_admin_lem :
      (w : World t)
      → seed_admin t hashing count driver_probe env w ≡ (ok tt, with_um_db t w (seeded w))
  unfolding seed_admin
  seed_admin_lem w =
      rw
        (seed_default_admin-row t laws hashing count driver_probe count_lem (default_username env)
          default_password (um_db t w) []).0

  -- A request whose fields read as a user and a password.
  pub record IsRequest (fields : Fields) (u p : Text) : Type 0 where
    pub user_field : stripped_or (get_field (codes "username") fields) (default_username env) ≡ ok u
    pub password_field : stripped_or (get_field (codes "password") fields) [] ≡ ok p

  abbrev pub login : Fields → World t → Outcome Response × World t
  login fields = password_login t hashing count driver_probe env (some (obj fields))

  -- The session that a login leaves.
  abbrev pub session_after : Bool → Bool → Text → Session → Session
  session_after false must u s = s
  session_after true true u s = record s { pending_username = some u }
  session_after true false u s = record s { admin_user = some u }

  finish_login_lem :
      (w : World t) (u : Text) (a : Option Admin)
      → (status (finish_login t hashing count driver_probe env u a w).0 ≡ 200)
        × ((finish_login t hashing count driver_probe env u a w).1
            ≡ record w { session = session_after true (must_change a) u w.session })
  unfolding finish_login set_logged_in
  finish_login_lem w u a = elim (Bool-cases (must_change a)) [
    | inl e ↦ rw e (refl, refl)
    | inr e ↦ rw e (refl, refl)
  ]

  -- The admin that the login finds, once the default one is seeded.
  abbrev pub found : World t → Text → Option Admin
  found w u = row (seeded w) u

  check_lem :
      (w : World t) (u p : Text)
      → on_um_db t (check_admin_password t hashing u p) (with_um_db t w (seeded w))
        ≡ (ok (password_matches t hashing (found w u) p), with_um_db t w (seeded w))
  check_lem w u p =
      on_um_db-read t (check_admin_password t hashing u p) (with_um_db t w (seeded w))
        (rw um_db-with_um_db (check_admin_password_lem t laws hashing u p (seeded w)))

  read_lem :
      (w : World t) (u : Text)
      → on_um_db t (get_admin_by_username t hashing u) (with_um_db t w (seeded w))
        ≡ (ok (found w u), with_um_db t w (seeded w))
  read_lem w u =
      on_um_db-read t (get_admin_by_username t hashing u) (with_um_db t w (seeded w))
        (rw um_db-with_um_db (get_admin_lem t laws hashing u (seeded w)))

  login_with_lem :
      (w : World t) (u p : Text)
      → login_with t hashing count driver_probe env u p w ≡ (
          if password_matches t hashing (found w u) p
          then finish_login t hashing count driver_probe env u
              (found w u)
              (with_um_db t w (seeded w))
          else (ok (error_response 401 (codes "invalid credentials")), with_um_db t w (seeded w)))
  unfolding login_with
  login_with_lem w u p =
      rw (seed_admin_lem w, check_lem w u p)
        (elim (Bool-cases (password_matches t hashing (found w u) p)) [
          | inl e ↦ rw (e, read_lem w u)
          | inr e ↦ rw e
        ])

  password_login_lem :
      (fields : Fields) (w : World t) (u p : Text)
      → IsRequest fields u p
      → login fields w ≡ login_with t hashing count driver_probe env u p w
  unfolding password_login
  password_login_lem fields w u p q = rw (q.user_field, q.password_field)

  -- The reply, the session and the database, for the admin that is found once the default one is
  -- seeded.
  pub password_login-found :
      (fields : Fields) (w : World t) (u p : Text)
      → IsRequest fields u p
      → (status (login fields w).0
          ≡ (if password_matches t hashing (found w u) p then 200 else 401))
        × ((login fields w).1.session
            ≡ session_after
                (password_matches t hashing (found w u) p)
                (must_change (found w u))
                u
                w.session)
        × (um_db t (login fields w).1 ≡ seeded w)
  password_login-found fields w u p q =
      rw (password_login_lem fields w u p q, login_with_lem w u p)
        (let (f0, f1) = finish_login_lem (with_um_db t w (seeded w)) u (found w u) in
          elim (Bool-cases (password_matches t hashing (found w u) p)) [
            | inl e ↦
                rw (e, f0, f1)
                  (
                    refl,
                    ap (λ x. session_after true (must_change (found w u)) u x)
                        (with_um_db-session t w (seeded w)),
                    um_db-with_um_db t w (seeded w),
                  )
            | inr e ↦
                rw e (refl, with_um_db-session t w (seeded w), um_db-with_um_db t w (seeded w))
          ])

  module _ (hash_laws : IsHashing hashing) where
    default_matches :
        password_matches t hashing
          (some (default_admin t hashing default_password))
          default_password
        ≡ true
    default_matches = rw (hash_laws.not_empty, hash_laws.check_generate) (==_self default_password)

    -- A world whose main engine is set, whatever `get_user_engine` holds.
    abbrev pub switched : World t → Db → World t
    switched w d = record w { um_engine = none; db_engine = some d }

    found_default :
        (w : World t) (d : Db)
        → row d (default_username env) ≡ none
        → found (switched w d) (default_username env)
          ≡ some (default_admin t hashing default_password)
    found_default w d e =
        (seed_default_admin-row t laws hashing count driver_probe count_lem (default_username env)
          default_password d (default_username env)).1
        ∙ rw (==_self (default_username env), e)

    -- Once the main engine is set, and its database has no row for the default user, the default
    -- password is accepted for that user, whatever password is stored in the database that
    -- `get_user_engine` gives: the reply is 200 and the user is pending.
    pub password_login-switched :
        (fields : Fields) (w : World t) (d : Db)
        → IsRequest fields (default_username env) default_password
        → row d (default_username env) ≡ none
        → (status (login fields (switched w d)).0 ≡ 200)
          × ((login fields (switched w d)).1.session.pending_username ≡ some (default_username env))
    password_login-switched fields w d q e =
        let (s, se, de) =
          password_login-found fields (switched w d) (default_username env) default_password q in
        (
          s ∙ rw (found_default w d e, default_matches) refl,
          ap (λ x. x.pending_username) se ∙ rw (found_default w d e, default_matches) refl,
        )
