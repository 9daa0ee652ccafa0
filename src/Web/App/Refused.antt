-- ===== src/Web/App/Refused.antt =====
-- The guarded routes, for a client that is not logged in.
use postfixblocker.Prelude.{◌≡◌, refl, ap, ◌∙◌, inl, inr, Bool, true, Option, Option-cases, arith}
use postfixblocker.Exec.{Outcome}
use postfixblocker.Db.Table.{IsTable}
use postfixblocker.Web.Http.{Response}
use postfixblocker.Web.Auth.{Session, World}
use postfixblocker.Web.Addresses.{Api as BlockedApi}
use postfixblocker.Web.Logs.{Api as LogsApi}
use postfixblocker.Web.Auth.Guard.{IsRefused, refusal, logout-refused}
use postfixblocker.Web.Passkeys.Guarded.{register_challenge-refused, register_verify-refused}
use postfixblocker.Web.Addresses.Guarded.{
  list_addresses-refused, add_address-refused, delete_address-refused, update_address-refused,
}
use postfixblocker.Web.Logs.Guarded.{
  get_log_level-refused, put_log_level-refused, get_refresh_interval-refused,
  put_refresh_interval-refused, tail_log-refused, lines_count-refused,
}
use postfixblocker.Web.App.Process.{
  Deployment, Conditions, Call, call_list_addresses, call_add_address, call_delete_address,
  call_update_address, call_get_log_level, call_put_log_level, call_get_refresh, call_put_refresh,
  call_tail_log, call_lines_count, call_password_login, call_password_change, call_logout, call_me,
  call_register_challenge, call_register_verify, call_login_challenge, call_login_verify,
  call_test_reset, call_test_dump, State, auth_world, with_auth, blocked_api, with_blocked,
  logs_api, with_logs,
}
use postfixblocker.Web.App.{handler}
use postfixblocker.Web.App.Apart.{is_guarded, IsApart}

module _ (d : Deployment) (props : IsTable d.props) (apart : IsApart d props) (c : Conditions) where
  on_blocked-refused :
      (s : State d) {x : Outcome Response × BlockedApi d.blocked d.env}
      → x ≡ (refusal, blocked_api d s)
      → ◌≡◌ {A = Outcome Response × State d} (x.0, with_blocked d s x.1) (refusal, s)
  on_blocked-refused s e =
      ap (λ x. (x.0, with_blocked d s x.1)) e
      ∙ ap {A = d.props.Db} (λ main. (refusal, record s { main = main }))
          (apart.blocked_put_get s.main)

  on_logs-refused :
      (s : State d) {x : Outcome Response × LogsApi d.props d.env d.attribute d.repr}
      → x ≡ (refusal, logs_api d s)
      → ◌≡◌ {A = Outcome Response × State d} (x.0, with_logs d s x.1) (refusal, s)
  on_logs-refused s e = ap (λ x. (x.0, with_logs d s x.1)) e

  with_auth_self : (s : State d) → with_auth d s (auth_world d s) ≡ s
  with_auth_self s = elim (Option-cases s.config.db_engine) [
    | inl e ↦ ap {A = d.props.Db} (λ main. record s { main = main }) (rw e refl)
    | inr (eng, e) ↦
        ap {A = d.props.Db} (λ main. record s { main = main }) (rw e (apart.users_put_get s.main))
  ]

  on_auth-refused :
      (s : State d) {x : Outcome Response × World d.users}
      → x ≡ (refusal, auth_world d s)
      → ◌≡◌ {A = Outcome Response × State d} (x.0, with_auth d s x.1) (refusal, s)
  on_auth-refused s e =
      ap (λ x. (x.0, with_auth d s x.1)) e ∙ ap (λ t. (refusal, t)) (with_auth_self s)

  on_session-refused :
      (s : State d) {x : Outcome Response × Session}
      → x ≡ (refusal, s.session)
      → ◌≡◌ {A = Outcome Response × State d} (x.0, record s { session = x.1 }) (refusal, s)
  on_session-refused s e =
      ap {A = Outcome Response × Session} (λ x. (x.0, record s { session = x.1 })) e

  -- A guarded handler that is refused changes nothing.
  pub handler-refused :
      (call : Call) (ready : Option Bool) (s : State d)
      → is_guarded call ≡ true
      → IsRefused d.env s.session
      → handler d c call ready s ≡ (refusal, s)
  unfolding handler
  handler-refused (call_list_addresses args) ready s g h =
      on_blocked-refused s
        (list_addresses-refused d.blocked d.env ready (blocked_api d s) h d.queries args)
  handler-refused (call_add_address body) ready s g h =
      on_blocked-refused s
        (add_address-refused d.blocked d.env ready (blocked_api d s) h c.pid body)
  handler-refused (call_delete_address entry_id) ready s g h =
      on_blocked-refused s
        (delete_address-refused d.blocked d.env ready (blocked_api d s) h c.pid entry_id)
  handler-refused (call_update_address entry_id body) ready s g h =
      on_blocked-refused s
        (update_address-refused d.blocked d.env ready (blocked_api d s) h c.pid entry_id body)
  handler-refused (call_get_log_level service) ready s g h =
      on_logs-refused s
        (get_log_level-refused d.props d.env d.attribute d.repr ready (logs_api d s) h service)
  handler-refused (call_put_log_level service body) ready s g h = on_logs-refused s (
      put_log_level-refused d.props d.env d.attribute d.repr ready (logs_api d s) h c.readable
        c.outcome service body)
  handler-refused (call_get_refresh name) ready s g h =
      on_logs-refused s
        (get_refresh_interval-refused d.props d.env d.attribute d.repr ready (logs_api d s) h name)
  handler-refused (call_put_refresh name body) ready s g h = on_logs-refused s (
      put_refresh_interval-refused d.props d.env d.attribute d.repr ready (logs_api d s) h name
        body)
  handler-refused (call_tail_log name lines) ready s g h =
      on_session-refused s (tail_log-refused d.files d.paths d.env s.session h name lines)
  handler-refused (call_lines_count name) ready s g h =
      on_session-refused s (lines_count-refused d.files d.paths d.env s.session h name)
  handler-refused call_logout ready s g h =
      on_auth-refused s
        (logout-refused d.users d.hashing d.count d.driver_probe d.env (auth_world d s) h)
  handler-refused call_register_challenge ready s g h =
      on_auth-refused s
        (register_challenge-refused d.users d.hashing d.wa d.b64 d.env d.site (auth_world d s) h)
  handler-refused (call_register_verify body) ready s g h =
      on_auth-refused s
        (register_verify-refused d.users d.hashing d.wa d.b64 d.env d.site (auth_world d s) h body)
  handler-refused (call_password_login body) ready s g h = ground arith
  handler-refused (call_password_change body) ready s g h = ground arith
  handler-refused call_me ready s g h = ground arith
  handler-refused call_login_challenge ready s g h = ground arith
  handler-refused (call_login_verify body) ready s g h = ground arith
  handler-refused (call_test_reset body) ready s g h = ground arith
  handler-refused call_test_dump ready s g h = ground arith
