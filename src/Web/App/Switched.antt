-- ===== src/Web/App/Switched.antt =====
-- How a request of one client changes the database in which all clients' passwords are looked up.
use postfixblocker.Prelude.{
  ◌≡◌, refl, ap, ap₂, ◌∙◌, Bool, true, false, Option, none, some, arith, inl, inr, Bool-cases,
}
use postfixblocker.Text.{Text}
use postfixblocker.Exec.{Outcome, ok, raised, continue}
use postfixblocker.Db.Table.{IsTable, row_count}
use postfixblocker.Db.Admins.Laws.{IsHashing}
use postfixblocker.Db.Engine.Ready.{ensure_db_ready-some}
use postfixblocker.Web.Json.{Fields, obj}
use postfixblocker.Web.Http.{Response, status}
use postfixblocker.Web.Auth.{Session, World, default_username, default_password}
use postfixblocker.Web.Auth.Login.{IsRequest, switched, login, password_login-switched}
use postfixblocker.Web.App.Process.{
  Deployment, Conditions, Call, call_list_addresses, call_add_address, call_delete_address,
  call_update_address, call_get_log_level, call_put_log_level, call_get_refresh, call_put_refresh,
  call_password_login, State, auth_world,
}
use postfixblocker.Web.App.{asks_ready, reaches_init, is_let_in, ensure_ready, handler, answer}
use postfixblocker.Web.App.Ready.{handler-config}

module _ (d : Deployment) (c : Conditions) where
  handler-um_engine :
      (call : Call) (ready : Option Bool) (s : State d)
      → asks_ready call ≡ true
      → (handler d c call ready s).1.um_engine ≡ s.um_engine
  unfolding handler
  handler-um_engine (call_list_addresses args) ready s h = refl
  handler-um_engine (call_add_address body) ready s h = refl
  handler-um_engine (call_delete_address entry_id) ready s h = refl
  handler-um_engine (call_update_address entry_id body) ready s h = refl
  handler-um_engine (call_get_log_level service) ready s h = refl
  handler-um_engine (call_put_log_level service body) ready s h = refl
  handler-um_engine (call_get_refresh name) ready s h = refl
  handler-um_engine (call_put_refresh name body) ready s h = refl
  handler-um_engine call ready s h = absurd (ground arith)

  -- What the handler leaves as `ensure_db_ready` left it.
  continue-engines :
      (call : Call) (x : Outcome Bool × State d)
      → asks_ready call ≡ true
      → ((continue (λ ready. handler d c call (some ready)) x).1.um_engine ≡ x.1.um_engine)
        × ((continue (λ ready. handler d c call (some ready)) x).1.config ≡ x.1.config)
  continue-engines call (ok ready, s) h =
      (handler-um_engine call (some ready) s h, handler-config d c call (some ready) s)
  continue-engines call (raised e, s) h = (refl, refl)

  ensure_ready-um_engine : (s : State d) → (ensure_ready d c s).1.um_engine ≡ s.um_engine
  unfolding ensure_ready
  ensure_ready-um_engine s = elim (Bool-cases (reaches_init d c s.config)) [
    | inl e ↦ rw e refl
    | inr e ↦ rw e refl
  ]

  ensure_ready-db_engine :
      (s : State d)
      → c.refused ≡ none
      → s.config.db_engine ≡ none
      → s.config.db_ready ≡ false
      → (ensure_ready d c s).1.config.db_engine ≡ some s.config.made
  unfolding ensure_ready
  ensure_ready-db_engine s r e n = ensure_db_ready-some c.refused _ s.config r e n

  answer-let_in :
      (call : Call) (s : State d)
      → asks_ready call ≡ true
      → is_let_in d c s ≡ true
      → answer d c call s ≡ continue (λ ready. handler d c call (some ready)) (ensure_ready d c s)
  unfolding answer
  answer-let_in call s h l = rw (h, l) refl

  -- A call of a client that is let in and whose route asks for the database.
  pub record IsFirst (call : Call) (s : State d) : Type 0 where
    pub asks : asks_ready call ≡ true
    pub let_in : is_let_in d c s ≡ true
    pub can_make : c.refused ≡ none
    pub no_um_engine : s.um_engine ≡ none
    pub no_engine : s.config.db_engine ≡ none
    pub not_ready : s.config.db_ready ≡ false

  answer-um_engine :
      (call : Call) (s : State d) → IsFirst call s → (answer d c call s).1.um_engine ≡ none
  answer-um_engine call s q =
      ap (λ x. x.1.um_engine) (answer-let_in call s q.asks q.let_in)
      ∙ (continue-engines call (ensure_ready d c s) q.asks).0
      ∙ ensure_ready-um_engine s
      ∙ q.no_um_engine

  answer-db_engine :
      (call : Call) (s : State d)
      → IsFirst call s
      → (answer d c call s).1.config.db_engine ≡ some s.config.made
  answer-db_engine call s q =
      ap (λ x. x.1.config.db_engine) (answer-let_in call s q.asks q.let_in)
      ∙ ap (λ a. a.db_engine) (continue-engines call (ensure_ready d c s) q.asks).1
      ∙ ensure_ready-db_engine s q.can_make q.no_engine q.not_ready

  -- What a client sees after such a call.
  abbrev pub seen_by : Session → Call → State d → State d
  seen_by session call s = record (answer d c call s).1 { session = session }

  module _ (users : IsTable d.users) (hash_laws : IsHashing d.hashing)
      (count_lem : (k : Text) (u : d.users.Db)
        → d.count k u ≡ (ok (row_count (IsTable.row users u k)), u)) where
    abbrev main_users : Call → State d → d.users.Db
    main_users call s = d.main_users.get (answer d c call s).1.main

    abbrev login_to : Fields → World d.users → Outcome Response × World d.users
    login_to = login d.users users d.hashing d.count d.driver_probe count_lem d.env

    abbrev switched_to : World d.users → d.users.Db → World d.users
    switched_to = switched d.users users d.hashing d.count d.driver_probe count_lem d.env hash_laws

    auth_world-seen_by :
        (session : Session) (call : Call) (s : State d)
        → IsFirst call s
        → auth_world d (seen_by session call s)
          ≡ switched_to (auth_world d (seen_by session call s)) (main_users call s)
    auth_world-seen_by session call s q =
        ap₂ {A = Option d.users.Db} {B = Option d.users.Db}
          (λ um db. record (auth_world d (seen_by session call s)) {
            um_engine = um;
            db_engine = db;
          })
          (answer-um_engine call s q)
          (ap (λ o. elim o [ none ↦ none | some eng ↦ some (main_users call s) ])
            (answer-db_engine call s q))

    -- The first call of a client that is let in and needs the database switches all clients to the
    -- users of the main database: where that one then has no row for the default user, a login of any
    -- client as the default user with the default password is answered by 200 and leaves the user
    -- pending, whatever password is stored in the database of `get_user_engine`, and even if
    -- `init_db` fails. No engine is configured for the users, and the main one can be made.
    pub answer-switched :
        (call : Call) (s : State d) (session : Session) (fields : Fields) (again : Conditions)
        → IsFirst call s
        → IsRequest d.users users d.hashing d.count d.driver_probe count_lem d.env fields
            (default_username d.env)
            default_password
        → IsTable.row users (d.main_users.get (answer d c call s).1.main) (default_username d.env)
          ≡ none
        → (status
              (answer d again (call_password_login (some (obj fields))) (seen_by session call s)).0
            ≡ 200)
          × ((answer d again
                (call_password_login (some (obj fields)))
                (seen_by session call s)).1.session.pending_username
              ≡ some (default_username d.env))
    unfolding answer handler
    answer-switched call s session fields again q request missing =
        let w = auth_world d (seen_by session call s) in
        let e = auth_world-seen_by session call s q in
        let (replied, pending) =
          password_login-switched d.users users d.hashing d.count d.driver_probe count_lem d.env
            hash_laws fields w (main_users call s) request missing in
        (
          ap (λ v. status (login_to fields v).0) e ∙ replied,
          ap (λ v. (login_to fields v).1.session.pending_username) e ∙ pending,
        )
