-- ===== src/Web/App/Ready.antt =====
-- What the calls of the routes do to `app.config`.
use postfixblocker.Prelude.{
  ◌≡◌, refl, ap, inl, inr, ◌&&◌, ◌||◌, Bool, true, Option, none, some, List, [], ◌∷◌, Bool-cases,
  subst, sym, ◌∙◌, arith,
}
use postfixblocker.Exec.{Exn, Outcome, ok, raised, Exec, continue}
use postfixblocker.Db.Engine.{App, ensure_db_ready}
use postfixblocker.Db.Engine.Ready.{
  IsOneEngine, new_app, ensure_db_ready-IsOneEngine, ensure_db_ready_again,
}
use postfixblocker.Web.Http.{Response}
use postfixblocker.Web.Auth.{Session}
use postfixblocker.Web.App.Process.{
  Deployment, Conditions, Call, call_list_addresses, call_add_address, call_delete_address,
  call_update_address, call_get_log_level, call_put_log_level, call_get_refresh, call_put_refresh,
  call_tail_log, call_lines_count, call_password_login, call_password_change, call_logout, call_me,
  call_register_challenge, call_register_verify, call_login_challenge, call_login_verify,
  call_test_reset, call_test_dump, State,
}
use postfixblocker.Web.App.{ensure_ready, is_let_in, asks_ready, asks_for_tests, handler, answer}

new_app-IsOneEngine : IsOneEngine new_app
new_app-IsOneEngine = record { engine = inl (refl, refl); ready = inl refl }

stays :
    (refused failed : Option Exn) (a b : App)
    → a ≡ b
    → b.db_ready ≡ true
    → (ensure_db_ready refused failed a).1 ≡ b
stays refused failed a b e ready =
    ap (λ x. (ensure_db_ready refused failed x).1) e
    ∙ ap (λ x. x.1) (ensure_db_ready_again refused failed b ready)

module _ (d : Deployment) where
  -- No handler changes `app.config`.
  pub handler-config :
      (c : Conditions) (call : Call) (ready : Option Bool) (s : State d)
      → (handler d c call ready s).1.config ≡ s.config
  unfolding handler
  handler-config c (call_list_addresses args) ready s = refl
  handler-config c (call_add_address body) ready s = refl
  handler-config c (call_delete_address entry_id) ready s = refl
  handler-config c (call_update_address entry_id body) ready s = refl
  handler-config c (call_get_log_level service) ready s = refl
  handler-config c (call_put_log_level service body) ready s = refl
  handler-config c (call_get_refresh name) ready s = refl
  handler-config c (call_put_refresh name body) ready s = refl
  handler-config c (call_tail_log name lines) ready s = refl
  handler-config c (call_lines_count name) ready s = refl
  handler-config c (call_password_login body) ready s = refl
  handler-config c (call_password_change body) ready s = refl
  handler-config c call_logout ready s = refl
  handler-config c call_me ready s = refl
  handler-config c call_register_challenge ready s = refl
  handler-config c (call_register_verify body) ready s = refl
  handler-config c call_login_challenge ready s = refl
  handler-config c (call_login_verify body) ready s = refl
  handler-config c (call_test_reset body) ready s = ground arith
  handler-config c call_test_dump ready s = ground arith

module _ (d : Deployment) where
  -- The calls of any clients, one after the other, each with the session of its client.
  abbrev pub serve_clients : List (Session × Conditions × Call) → State d → State d
  serve_clients [] s = s
  serve_clients ((session, c, call) ∷ calls) s =
      serve_clients calls (answer d c call (record s { session = session })).1

module _ (d : Deployment) (P : App → Type 0)
    (keeps : (refused failed : Option Exn) (a : App)
      → P a
      → P (ensure_db_ready refused failed a).1) where
  abbrev Keeps : Exec (State d) Response → Type 0
  Keeps m = (s : State d) → P s.config → P (m s).1.config

  ensure_ready-keeps : (c : Conditions) (s : State d) → P s.config → P (ensure_ready d c s).1.config
  unfolding ensure_ready
  ensure_ready-keeps c s h = keeps c.refused _ s.config h

  continue-keeps :
      (f : Bool → Exec (State d) Response)
      → ((ready : Bool) → Keeps (f ready))
      → (x : Outcome Bool × State d) → P x.1.config
      → P (continue f x).1.config
  continue-keeps f k (ok ready, s) h = k ready s h
  continue-keeps f k (raised e, s) h = h

  handler-Keeps :
      (c : Conditions) (call : Call) (ready : Option Bool) → Keeps (handler d c call ready)
  handler-Keeps c call ready s h = subst P (sym (handler-config d c call ready s)) h

  answer-Keeps : (c : Conditions) (call : Call) → Keeps (answer d c call)
  unfolding answer
  answer-Keeps c call s h =
      elim (Bool-cases (asks_ready call && is_let_in d c s || asks_for_tests d c call)) [
        | inl e ↦ rw e (
            continue-keeps (λ ready. handler d c call (some ready))
              (λ ready. handler-Keeps c call (some ready)) (ensure_ready d c s)
              (ensure_ready-keeps c s h))
        | inr e ↦ rw e (handler-Keeps c call none s h)
      ]

  -- What `ensure_db_ready` keeps, the calls keep.
  serve_clients-keeps :
      (calls : List (Session × Conditions × Call)) (s : State d)
      → P s.config
      → P (serve_clients d calls s).config
  serve_clients-keeps [] s h = h
  serve_clients-keeps ((session, c, call) ∷ calls) s h =
      serve_clients-keeps calls (answer d c call (record s { session = session })).1
        (answer-Keeps c call (record s { session = session }) h)

module _ (d : Deployment) where
  -- A process that starts without a main engine makes at most one, whatever its clients call, one
  -- call after the other and each with the session that the client sends, and however `get_engine`
  -- and `init_db` end: it keeps that one, and there is one where the database counts as ready. Once
  -- it does, the engine, whether it counts as ready, and how many were made stay as they are through
  -- all later calls. The engine of `get_user_engine` is another one and is not counted.
  pub serve_clients-IsOneEngine :
      (s : State d) (before later : List (Session × Conditions × Call))
      → s.config ≡ new_app
      → IsOneEngine (serve_clients d before s).config
        × ((serve_clients d before s).config.db_ready ≡ true
            → (serve_clients d later (serve_clients d before s)).config
              ≡ (serve_clients d before s).config)
  serve_clients-IsOneEngine s before later e =
      let mid = serve_clients d before s in
      (
        serve_clients-keeps d IsOneEngine ensure_db_ready-IsOneEngine before s
            (subst IsOneEngine (sym e) new_app-IsOneEngine),
        λ ready.
            serve_clients-keeps d (λ a. a ≡ mid.config)
              (λ refused failed a h. stays refused failed a mid.config h ready) later mid refl,
      )
