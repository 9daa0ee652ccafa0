-- ===== src/Web/Logs/Settings.antt =====
-- The settings that are put are the settings that are got.
use postfixblocker.Prelude.{
  ◌≡◌, refl, sym, ap, ◌∙◌, Bool, false, ◌&&◌, Option, none, some, [], ◌∷◌, if◌then◌else◌,
  Bool-cases, Option-cases, inl, inr,
}
use postfixblocker.Text.{Text, codes, ◌==◌, ==_self, is_empty, lower}
use postfixblocker.Text.Decimal.{ℤ, pos, parse_int, show_int}
use postfixblocker.Text.Decimal.RoundTrip.{parse_int-show_int}
use postfixblocker.Exec.{ok, raised, Exec, Outcome, continue, pure}
use postfixblocker.Postfix.Maps.{WriteOutcome}
use postfixblocker.Db.Table.{Table, IsTable}
use postfixblocker.Db.Props.{
  Service, api, blocker, postfix, log_key, refresh_key, lines_key, value_or, set_prop,
}
use postfixblocker.Db.Props.Laws.{get_prop_lem, set_prop-ok, set_prop-row}
use postfixblocker.Web.Json.{Json, Fields, num, obj, get_field, get_or, int_of, int_or_error}
use postfixblocker.Web.Http.{Response, status}
use postfixblocker.Web.Auth.{Env, is_auth_required, is_unset}
use postfixblocker.Web.Addresses.{not_ready, done_response}
use postfixblocker.Web.Logs.{
  service_of, Api, for_service, apply_level, logger_level, level_response, read_level,
  get_log_level, level_text, store_level, put_log_level, refresh_response, int_or, read_refresh,
  get_refresh_interval, store_refresh, put_refresh_interval, set_logger_level,
}

-- The three keys of a refresh interval are other keys than those of the lines.
keys_differ : (s : Service) → (lines_key s == refresh_key s) ≡ false
unfolding ◌==◌
keys_differ api = refl
keys_differ blocker = refl
keys_differ postfix = refl

no_number : (n : ℤ) → parse_int [] ≡ some n → ⊥
unfolding parse_int
no_number n e = cc

continue-state : {S A B : Type 0} (b : B) (x : Outcome A × S) → (continue (λ _. pure b) x).1 ≡ x.1
continue-state b (ok a, s) = refl
continue-state b (raised e, s) = refl

module _ (t : Table (Option Text)) (laws : IsTable t) (env : Env)
    (attribute : Text → Option (Option ℤ)) (repr : Json → Text) where
  open t use {Db}
  open laws use {row}

  int_or_lem :
      (x default : Text) (n : ℤ)
      → parse_int x ≡ some n
      → int_or t env attribute repr (some x) default ≡ ok n
  unfolding int_of
  int_or_lem [] default n e = absurd (no_number n e)
  int_or_lem (c ∷ x) default n e = ap int_or_error e

  -- The client may call the handlers, and the database is ready.
  pub record IsAllowed (ready : Option Bool) (w : Api t env attribute repr) : Type 0 where
    pub allowed : (is_auth_required env && is_unset w.session.admin_user) ≡ false
    pub is_ready : not_ready ready ≡ false

  for_service_lem :
      (o : Option Service) (s : Service) (ready : Option Bool)
      (fn : Service → Exec (Api t env attribute repr) Response) (w : Api t env attribute repr)
      → IsAllowed ready w
      → o ≡ some s
      → for_service t env attribute repr o ready fn w ≡ fn s w
  for_service_lem o s ready fn w h e = rw (e, h.allowed, h.is_ready) refl

  -- The databases after the interval, and then the lines, are stored.
  abbrev with_ms : ℤ → Service → Db → Db
  with_ms ms s d = (set_prop t (refresh_key s) (some (show_int ms)) d).1

  abbrev with_both : ℤ → ℤ → Service → Db → Db
  with_both ms lines s d = (set_prop t (lines_key s) (some (show_int lines)) (with_ms ms s d)).1

  store_refresh_lem :
      (ms lines : ℤ) (s : Service) (w : Api t env attribute repr)
      → store_refresh t env attribute repr ms lines s w
        ≡ (ok (done_response 200 (codes "ok")), record w { db = with_both ms lines s w.db })
  unfolding store_refresh
  store_refresh_lem ms lines s w =
      rw
        (
          set_prop-ok t laws (refresh_key s) (some (show_int ms)) w.db,
          set_prop-ok t laws (lines_key s) (some (show_int lines)) (with_ms ms s w.db),
        )
        refl

  row_lines :
      (ms lines : ℤ) (s : Service) (d : Db)
      → row (with_both ms lines s d) (lines_key s) ≡ some (some (show_int lines))
  row_lines ms lines s d =
      set_prop-row t laws (lines_key s) (some (show_int lines)) (with_ms ms s d) (lines_key s)
      ∙ rw (==_self (lines_key s)) refl

  row_ms :
      (ms lines : ℤ) (s : Service) (d : Db)
      → row (with_both ms lines s d) (refresh_key s) ≡ some (some (show_int ms))
  row_ms ms lines s d =
      set_prop-row t laws (lines_key s) (some (show_int lines)) (with_ms ms s d) (refresh_key s)
      ∙ rw (keys_differ s) (
          set_prop-row t laws (refresh_key s) (some (show_int ms)) d (refresh_key s)
          ∙ rw (==_self (refresh_key s)) refl)

  read_refresh_lem :
      (ms lines : ℤ) (s : Service) (w : Api t env attribute repr)
      → row w.db (refresh_key s) ≡ some (some (show_int ms))
      → row w.db (lines_key s) ≡ some (some (show_int lines))
      → (read_refresh t env attribute repr s w).0
        ≡ ok (refresh_response t env attribute repr s ms lines)
  unfolding read_refresh
  read_refresh_lem ms lines s w e f =
      rw
        (
          get_prop_lem t laws (refresh_key s) (some (codes "5000")) w.db,
          e,
          int_or_lem (show_int ms) (codes "5000") ms (parse_int-show_int ms),
          get_prop_lem t laws (lines_key s) (some (codes "100")) w.db,
          f,
          int_or_lem (show_int lines) (codes "100") lines (parse_int-show_int lines),
        )
        refl

  -- For a client that may call the routes, a database that is ready and a table that answers: an
  -- interval and a number of lines that are put for a log, each given as a number or as a text that
  -- `int` reads, or missing, are answered by 200, and a get behind it returns both numbers.
  pub get-put_refresh_interval :
      (ready : Option Bool) (name : Text) (s : Service) (fields : Fields) (ms lines : ℤ)
      (w : Api t env attribute repr)
      → IsAllowed ready w
      → service_of (lower name) ≡ some s
      → int_of (get_or (get_field (codes "interval_ms") fields) (num (pos 0))) ≡ ok ms
      → int_of (get_or (get_field (codes "lines") fields) (num (pos 200))) ≡ ok lines
      → (status (put_refresh_interval t env attribute repr ready name (some (obj fields)) w).0
          ≡ 200)
        × ((get_refresh_interval t env attribute repr ready name
              (put_refresh_interval t env attribute repr ready name (some (obj fields)) w).1).0
            ≡ ok (refresh_response t env attribute repr s ms lines))
  unfolding put_refresh_interval get_refresh_interval
  get-put_refresh_interval ready name s fields ms lines w h known e f =
      rw (known, h.allowed, h.is_ready, e, f, store_refresh_lem ms lines s w, h.allowed)
        (
          refl,
          read_refresh_lem ms lines s (record w { db = with_both ms lines s w.db })
              (row_ms ms lines s w.db) (row_lines ms lines s w.db),
        )

  apply_level-keeps :
      (readable : Bool) (outcome : WriteOutcome) (s : Service) (level : Text)
      (w : Api t env attribute repr)
      → ((apply_level t env attribute repr readable outcome s level w).1.db ≡ w.db)
        × ((apply_level t env attribute repr readable outcome s level w).1.session ≡ w.session)
  unfolding apply_level set_logger_level
  apply_level-keeps readable outcome api level w =
      elim (Option-cases (logger_level t env attribute repr (parse_int level) level)) [
        | inl e ↦ rw e (refl, refl)
        | inr (n, e) ↦ rw e (refl, refl)
      ]
  apply_level-keeps readable outcome blocker level w = (refl, refl)
  apply_level-keeps readable outcome postfix level w = (refl, refl)

  -- The state once a level is stored, and once it is applied too.
  abbrev leveled : Service → Text → Api t env attribute repr → Api t env attribute repr
  leveled s level w = record w { db = (set_prop t (log_key s) (some level) w.db).1 }

  store_level_lem :
      (readable : Bool) (outcome : WriteOutcome) (level : Text) (s : Service)
      (w : Api t env attribute repr)
      → is_empty level ≡ false
      → (store_level t env attribute repr readable outcome level s w).1
        ≡ (apply_level t env attribute repr readable outcome s level (leveled s level w)).1
  unfolding store_level
  store_level_lem readable outcome level s w h =
      rw (h, set_prop-ok t laws (log_key s) (some level) w.db)
        (continue-state (done_response 200 (codes "ok"))
          (apply_level t env attribute repr readable outcome s level (leveled s level w)))

  read_level_lem :
      (j : Service) (w : Api t env attribute repr)
      → (read_level t env attribute repr j w).0
        ≡ ok (level_response t env attribute repr j (value_or (row w.db (log_key j)) none))
  unfolding read_level
  read_level_lem j w = rw (get_prop_lem t laws (log_key j) none w.db) refl

  get_log_level_lem :
      (ready : Option Bool) (other : Text) (j : Service) (w : Api t env attribute repr)
      → IsAllowed ready w
      → service_of other ≡ some j
      → (get_log_level t env attribute repr ready other w).0
        ≡ ok (level_response t env attribute repr j (value_or (row w.db (log_key j)) none))
  unfolding get_log_level
  get_log_level_lem ready other j w h known =
      rw (for_service_lem (service_of other) j ready (read_level t env attribute repr) w h known)
        (read_level_lem j w)

  -- The row of a level that was put.
  pub put_log_level-row :
      (readable : Bool) (outcome : WriteOutcome) (ready : Option Bool) (service : Text)
      (s : Service) (fields : Fields) (w : Api t env attribute repr)
      → IsAllowed ready w
      → service_of service ≡ some s
      → is_empty (level_text t env attribute repr fields) ≡ false
      → row
          (put_log_level t env attribute repr readable outcome ready service
            (some (obj fields))
            w).1.db
          (log_key s)
        ≡ some (some (level_text t env attribute repr fields))
  unfolding put_log_level
  put_log_level-row readable outcome ready service s fields w h known some_level =
      let level = level_text t env attribute repr fields in
      rw (known, h.allowed, h.is_ready, store_level_lem readable outcome level s w some_level)
        (ap (λ d. row d (log_key s))
            (apply_level-keeps readable outcome s level (leveled s level w)).0
          ∙ set_prop-row t laws (log_key s) (some level) w.db (log_key s)
          ∙ rw (==_self (log_key s)) refl)

  -- A level that is put for a service is what a get behind it returns, with the spaces around it
  -- removed, and a get for another service returns what it would have returned before: also where the
  -- level is none that the logger knows, so that the put is answered by an error.
  pub get-put_log_level :
      (readable : Bool) (outcome : WriteOutcome) (ready : Option Bool) (service other : Text)
      (s j : Service) (fields : Fields) (w : Api t env attribute repr)
      → IsAllowed ready w
      → service_of service ≡ some s
      → service_of other ≡ some j
      → is_empty (level_text t env attribute repr fields) ≡ false
      → (get_log_level t env attribute repr ready other
          (put_log_level t env attribute repr readable outcome ready service
            (some (obj fields))
            w).1).0
        ≡ (if log_key s == log_key j
            then ok (
                level_response t env attribute repr j
                  (some (level_text t env attribute repr fields)))
            else (get_log_level t env attribute repr ready other w).0)
  unfolding put_log_level
  get-put_log_level readable outcome ready service other s j fields w h known known' some_level =
      let level = level_text t env attribute repr fields in
      let (kd, ks) = apply_level-keeps readable outcome s level (leveled s level w) in
      rw (known, h.allowed, h.is_ready, store_level_lem readable outcome level s w some_level)
        (get_log_level_lem ready other j
            (apply_level t env attribute repr readable outcome s level (leveled s level w)).1
            (record { allowed = rw ks h.allowed; is_ready = h.is_ready }) known'
          ∙ ap (λ d. ok (level_response t env attribute repr j (value_or (row d (log_key j)) none)))
              kd
          ∙ ap (λ r. ok (level_response t env attribute repr j (value_or r none)))
              (set_prop-row t laws (log_key s) (some level) w.db (log_key j))
          ∙ elim (Bool-cases (log_key s == log_key j)) [
            | inl e ↦ rw e refl
            | inr e ↦ rw e (sym (get_log_level_lem ready other j w h known'))
          ])
