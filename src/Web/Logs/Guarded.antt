-- ===== src/Web/Logs/Guarded.antt =====
-- The routes of the logs, for a client that is not logged in.
use postfixblocker.Prelude.{◌≡◌, refl, Bool, Option, none, some}
use postfixblocker.Text.{Text, lower}
use postfixblocker.Text.Decimal.{ℤ}
use postfixblocker.Exec.{Exec}
use postfixblocker.Postfix.Maps.{WriteOutcome}
use postfixblocker.Db.Table.{Table}
use postfixblocker.Db.Props.{Service}
use postfixblocker.Web.Json.{Json}
use postfixblocker.Web.Http.{Response}
use postfixblocker.Web.Auth.{Session, Env}
use postfixblocker.Web.Auth.Guard.{IsRefused, refusal}
use postfixblocker.Web.Logs.{
  Api, service_of, for_service, get_log_level, put_log_level, get_refresh_interval,
  put_refresh_interval,
}
use postfixblocker.Web.Logs.Files.{Files, LogPaths, tail_log, lines_count}

module _ (t : Table (Option Text)) (env : Env) (attribute : Text → Option (Option ℤ))
    (repr : Json → Text) (ready : Option Bool) (w : Api t env attribute repr)
    (h : IsRefused env w.session) where
  for_service-refused :
      (s : Option Service) (fn : Service → Exec (Api t env attribute repr) Response)
      → for_service t env attribute repr s ready fn w ≡ (refusal, w)
  for_service-refused none fn = rw h refl
  for_service-refused (some s) fn = rw h refl

  pub get_log_level-refused :
      (service : Text) → get_log_level t env attribute repr ready service w ≡ (refusal, w)
  unfolding get_log_level
  get_log_level-refused service = for_service-refused (service_of service) _

  pub put_log_level-refused :
      (readable : Bool) (outcome : WriteOutcome) (service : Text) (body : Option Json)
      → put_log_level t env attribute repr readable outcome ready service body w ≡ (refusal, w)
  unfolding put_log_level
  put_log_level-refused readable outcome service body = for_service-refused (service_of service) _

  pub get_refresh_interval-refused :
      (name : Text) → get_refresh_interval t env attribute repr ready name w ≡ (refusal, w)
  unfolding get_refresh_interval
  get_refresh_interval-refused name = for_service-refused (service_of (lower name)) _

  pub put_refresh_interval-refused :
      (name : Text) (body : Option Json)
      → put_refresh_interval t env attribute repr ready name body w ≡ (refusal, w)
  unfolding put_refresh_interval
  put_refresh_interval-refused name body = for_service-refused (service_of (lower name)) _

module _ (files : Files) (paths : LogPaths) (env : Env) (s : Session) (h : IsRefused env s) where
  pub tail_log-refused :
      (name lines : Option Text) → tail_log files paths env name lines s ≡ (refusal, s)
  unfolding tail_log
  tail_log-refused name lines = rw h refl

  pub lines_count-refused : (name : Option Text) → lines_count files paths env name s ≡ (refusal, s)
  unfolding lines_count
  lines_count-refused name = rw h refl
