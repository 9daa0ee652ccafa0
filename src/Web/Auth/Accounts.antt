-- ===== src/Web/Auth/Accounts.antt =====
-- `password_login`, by the rows of `um_user` when the request comes.
use postfixblocker.Prelude.{ℕ, ◌≡◌, ap, ◌∙◌, Bool, Option, if◌then◌else◌}
use postfixblocker.Text.{Text, ◌==◌}
use postfixblocker.Exec.{ok, Exec}
use postfixblocker.Db.Table.{Table, IsTable, row_count}
use postfixblocker.Db.Admins.{Admin, Hashing, password_matches}
use postfixblocker.Db.Admins.Laws.{or_default, seed_default_admin-row}
use postfixblocker.Web.Json.{Fields}
use postfixblocker.Web.Http.{status}
use postfixblocker.Web.Auth.{Env, World, default_username, default_password, must_change, um_db}
use postfixblocker.Web.Auth.Login.{IsRequest, login, session_after, seeded, password_login-found}

module _ (t : Table Admin) (laws : IsTable t) (hashing : Hashing) (count : Text → Exec t.Db ℕ)
    (driver_probe : Text → Exec t.Db Bool)
    (count_lem : (k : Text) (s : t.Db) → count k s ≡ (ok (row_count (IsTable.row laws s k)), s))
    (env : Env) where
  open laws use {row}

  -- A user's row: for the default user who has none, an admin with the default password, who must
  -- change it.
  abbrev pub account : World t → Text → Option Admin
  account w u =
      if default_username env == u
      then or_default t hashing (row (um_db t w) (default_username env)) default_password
      else row (um_db t w) u

  seeded-account :
      (w : World t) (u : Text)
      → row (seeded t laws hashing count driver_probe count_lem env w) u ≡ account w u
  seeded-account w u =
      (seed_default_admin-row t laws hashing count driver_probe count_lem (default_username env)
        default_password (um_db t w) u).1

  -- On a table that answers, for a body whose user and password can be read: a login is answered by 200 if the password
  -- matches the user's, by 401 if not, where the default user who has no row counts as an admin with
  -- the default password, who must change it. The session names the user as logged in exactly after
  -- an accepted password that need not be changed, and as pending after one that must be, and is else
  -- as it was. Whatever the reply, the default user then has that row, or the one that was there
  -- before, and every other user's row is as it was.
  pub password_login-decides :
      (fields : Fields) (w : World t) (u p : Text)
      → IsRequest t laws hashing count driver_probe count_lem env fields u p
      → let (r, after) = login t laws hashing count driver_probe count_lem env fields w in
        (status r ≡ (if password_matches t hashing (account w u) p then 200 else 401))
        × (after.session
            ≡ session_after t laws hashing count driver_probe count_lem env
                (password_matches t hashing (account w u) p)
                (must_change (account w u))
                u
                w.session)
        × ((j : Text) → row (um_db t after) j ≡ account w j)
  password_login-decides fields w u p q =
      let (s, se, de) =
        password_login-found t laws hashing count driver_probe count_lem env fields w u p q in
      let same = seeded-account w u in
      (
        s ∙ ap (λ a. if password_matches t hashing a p then 200 else 401) same,
        se
            ∙ ap
                (λ a.
                  session_after t laws hashing count driver_probe count_lem env
                    (password_matches t hashing a p) (must_change a) u w.session)
                same,
        λ j. ap (λ d. row d j) de ∙ seeded-account w j,
      )
