-- ===== src/Blocker/Start/Tests.antt =====
-- A database that is ready at the third attempt, and a PID file that replaces an old one.
use postfixblocker.Prelude.{ℕ, ◌≡◌, refl, none, some, [], ◌∷◌, ◌++◌}
use postfixblocker.Text.{codes}
use postfixblocker.Text.Decimal.{pos}
use postfixblocker.Exec.{operational, Exn, ok, raised}
use postfixblocker.Web.Auth.{Env}
use postfixblocker.Web.Addresses.{Blocked, Api, notify_blocker_refresh}
use postfixblocker.Blocker.Start.{Answer, init_engine_and_db, complete, write_pid_file}
use postfixblocker.Blocker.Start.Pid.{read_pid, notify_blocker_refresh-write_pid_file}
use postfixblocker.Blocker.Start.Ready.{
  IsReady, no_engine, not_initialized, init_engine_and_db-IsReady,
}

abbrev down : Exn
down = record { kind = operational; message = codes "connection refused" }

abbrev no_driver : Answer ℕ
no_driver = record { get_engine = raised down; initialize = λ e. raised down }

abbrev not_up : Answer ℕ
not_up = record { get_engine = ok 7; initialize = λ e. raised down }

abbrev up : Answer ℕ
up = record { get_engine = ok 8; initialize = λ e. ok tt }

init_engine_and_db-IsReady_example : IsReady ℕ 7 2 [] (
    init_engine_and_db ℕ
      ((no_driver ∷ not_up ∷ []) ++ up ∷ [])
      (record { engine = none; events = [] }))
init_engine_and_db-IsReady_example =
    init_engine_and_db-IsReady ℕ (no_driver ∷ not_up ∷ []) up [] 7
      (no_engine refl refl, (not_initialized refl refl, tt)) refl refl

abbrev table : Blocked
table = record {
  Db = Unit {0};
  insert = λ p r t s. (ok tt, s);
  delete = λ k s. (ok tt, s);
  update = λ k u s. (ok 0, s);
}

abbrev env : Env
env = record { api_auth_required = none; admin_username = none }

abbrev world : Api table env
world = record {
  session = record {
    admin_user = none;
    pending_username = none;
    webauthn_current_challenge = none;
  };
  db = tt;
  signals = [];
}

notify_blocker_refresh-write_pid_file_example :
    notify_blocker_refresh table env
      (read_pid (write_pid_file complete 4711 (some (codes "17"))))
      world
    ≡ (ok tt, record world { signals = pos 4711 ∷ [] })
notify_blocker_refresh-write_pid_file_example =
    notify_blocker_refresh-write_pid_file table env 4711 (some (codes "17")) world
