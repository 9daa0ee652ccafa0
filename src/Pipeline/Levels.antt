-- ===== src/Pipeline/Levels.antt =====
-- A log level that is put with postfix_blocker/web/routes_logs.py and read by
-- postfix_blocker/services/blocker_service.py.
use postfixblocker.Prelude.{◌≡◌, sym, ap, ◌∙◌, Bool, false, Option, none, some, List}
use postfixblocker.Text.{Text, is_empty}
use postfixblocker.Text.Decimal.{ℤ}
use postfixblocker.Exec.{Outcome, ok, raised}
use postfixblocker.Postfix.Maps.{BlockEntry, MapFiles, WriteOutcome}
use postfixblocker.Postfix.Control.{Command, Completed}
use postfixblocker.Db.Table.{Table, IsTable}
use postfixblocker.Db.Props.{blocker, log_key, get_prop, value_or}
use postfixblocker.Db.Props.Laws.{get_prop_lem}
use postfixblocker.Web.Json.{Json, Fields, obj}
use postfixblocker.Web.Auth.{Env}
use postfixblocker.Web.Logs.{Api, service_of, level_text, put_log_level}
use postfixblocker.Web.Logs.Settings.{IsAllowed, put_log_level-row}
use postfixblocker.Blocker.{Seen, level_number}
use postfixblocker.Blocker.Rounds.{step}
use postfixblocker.Blocker.Levels.{ran, rounds-root}

abbrev level_or : Option Text → Outcome (Option Text) → Option Text
level_or default (ok level) = level
level_or default (raised e) = default

module _ (t : Table (Option Text)) (laws : IsTable t) (api_env : Env)
    (attribute : Text → Option (Option ℤ)) (repr : Json → Text) (hash : List BlockEntry → ℤ)
    (run : Command → Outcome Completed) (env : Option Text) where
  -- A level that is put for the service, by a client that may call the API, is the level of the service's root
  -- logger after a round that reads the property then, whatever the rounds before were and whatever
  -- else this round meets: given that the level has a number, and that it is not empty.
  pub put_log_level-round :
      (readable : Bool) (outcome : WriteOutcome) (ready : Option Bool) (name : Text)
      (fields : Fields) (w : Api t api_env attribute repr) (files : MapFiles) (ss : List Seen)
      (seen : Seen) (n : ℤ)
      → IsAllowed t laws api_env attribute repr ready w
      → service_of name ≡ some blocker
      → is_empty (level_text t api_env attribute repr fields) ≡ false
      → level_number attribute (level_text t api_env attribute repr fields) ≡ some n
      → (get_prop t
          (log_key blocker)
          none
          (put_log_level t api_env attribute repr readable outcome ready name
            (some (obj fields))
            w).1.db).0
        ≡ ok seen.level
      → (step hash run attribute env seen (ran hash run attribute env files ss)).root_level ≡ some n
  put_log_level-round readable outcome ready name fields w files ss seen n allowed known some_level
        number reads =
      let d =
        (put_log_level t api_env attribute repr readable outcome ready name (some (obj fields))
          w).1.db in
      rounds-root hash run attribute env files ss seen (level_text t api_env attribute repr fields)
        n
        (ap (level_or none)
            (sym reads ∙ ap (λ r. r.0) (get_prop_lem t laws (log_key blocker) none d))
          ∙ ap (λ r. value_or r none)
              (put_log_level-row t laws api_env attribute repr readable outcome ready name blocker
                fields w allowed known some_level))
        number
