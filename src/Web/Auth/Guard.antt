-- ===== src/Web/Auth/Guard.antt =====
-- `login_required` and `logout`.
use postfixblocker.Prelude.{◌≡◌, refl, ◌&&◌, Bool, true, Bool-cases, inl, inr, ℕ}
use postfixblocker.Text.{Text, codes}
use postfixblocker.Exec.{Outcome, ok, Exec}
use postfixblocker.Db.Table.{Table}
use postfixblocker.Db.Admins.{Admin, Hashing}
use postfixblocker.Web.Http.{Response, error_response}
use postfixblocker.Web.Auth.{
  Session, Env, World, is_unset, is_auth_required, clear_login, login_required, logout,
}

module _ (t : Table Admin) (hashing : Hashing) (count : Text → Exec t.Db ℕ)
    (driver_probe : Text → Exec t.Db Bool) (env : Env) where
  -- Where authentication is required, a guarded handler does not run after a logout, whether the
  -- logout was itself refused or not: the reply is 401 and nothing changes.
  pub login_required-logout :
      (fn : Exec (World t) Response) (w : World t)
      → is_auth_required env ≡ true
      → login_required t env fn (logout t hashing count driver_probe env w).1 ≡ (
        ok (error_response 401 (codes "unauthorized")),
        (logout t hashing count driver_probe env w).1,
      )
  unfolding login_required logout clear_login
  login_required-logout fn w on = rw on (elim (Bool-cases (is_unset w.session.admin_user)) [
    | inl e ↦ rw (e, e) refl
    | inr e ↦ rw e refl
  ])

-- A request that a guarded handler does not run for.
abbrev pub IsRefused : Env → Session → Type 0
IsRefused env session = (is_auth_required env && is_unset session.admin_user) ≡ true

abbrev pub refusal : Outcome Response
refusal = ok (error_response 401 (codes "unauthorized"))

module _ (t : Table Admin) (hashing : Hashing) (count : Text → Exec t.Db ℕ)
    (driver_probe : Text → Exec t.Db Bool) (env : Env) where
  pub logout-refused :
      (w : World t)
      → IsRefused env w.session
      → logout t hashing count driver_probe env w ≡ (refusal, w)
  unfolding logout login_required
  logout-refused w h = rw h refl
