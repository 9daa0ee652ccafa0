-- ===== src/Web/App/Access.antt =====
-- That the right password opens the guarded routes.
use postfixblocker.Prelude.{
  ℕ, ◌≡◌, refl, sym, subst, ap, ap₂, ◌∙◌, ◌&&◌, ◌||◌, not, is_some, Bool, true, false, Option, none,
  some, ◌++◌, eqb, keep, if◌then◌else◌, arith,
}
use postfixblocker.Text.{Text, is_empty}
use postfixblocker.Exec.{Outcome, ok, continue, ◌>>=◌}
use postfixblocker.Db.Table.{IsTable, row_count}
use postfixblocker.Db.Admins.{Admin, password_matches}
use postfixblocker.Db.Engine.{App}
use postfixblocker.Db.Engine.Ready.{ensure_db_ready_again}
use postfixblocker.Web.Json.{Fields, obj}
use postfixblocker.Web.Http.{Response, status}
use postfixblocker.Web.Auth.{Session, World, is_auth_required, is_unset, must_change}
use postfixblocker.Web.Auth.Login.{IsRequest, login, found, session_after, password_login-found}
use postfixblocker.Web.Addresses.Laws.{IsBlocked, signalled, delete_address-rows}
use postfixblocker.Web.App.Process.{
  Deployment, Conditions, Call, call_password_login, call_delete_address, State, auth_world,
  put_main_um, blocked_api,
}
use postfixblocker.Web.App.{
  asks_ready, asks_for_tests, is_let_in, init_main, ensure_ready, handler, answer,
}
use postfixblocker.Web.App.Apart.{IsApart}

module _ (d : Deployment) where
  -- A database that counts as ready is not touched.
  ensure_ready_again :
      (c : Conditions) (s : State d) → s.config.db_ready ≡ true → ensure_ready d c s ≡ (ok true, s)
  unfolding ensure_ready
  ensure_ready_again c s h =
      ap₂ {A = Bool} {B = Outcome Bool × App}
        (λ b x. (x.0, record (if b then (init_main d c s).1 else s) { config = x.1 }))
        (ap (λ b. not b && (is_some s.config.db_engine || not (is_some c.refused))) h)
        (ensure_db_ready_again c.refused _ s.config h)

  set_user : (o : Option Text) (u : Text) → o ≡ some u → is_empty u ≡ false → is_unset o ≡ false
  set_user o u e full = ap is_unset e ∙ full

  let_in : (env_required unset : Bool) → unset ≡ false → (env_required && unset) ≡ false
  let_in required unset h = ground arith

  answer-asked :
      (c : Conditions) (call : Call) (s : State d)
      → asks_ready call ≡ true
      → (is_auth_required d.env && is_unset s.session.admin_user) ≡ false
      → s.config.db_ready ≡ true
      → answer d c call s ≡ handler d c call (some true) s
  unfolding answer
  answer-asked c call s asks allowed ready =
      ap
        (λ b.
          (if b && is_let_in d c s || asks_for_tests d c call
            then (do r ← ensure_ready d c; handler d c call (some r)) s
            else handler d c call none s))
        asks
      ∙ ap
          (λ b.
            (if not b || asks_for_tests d c call
              then (do r ← ensure_ready d c; handler d c call (some r)) s
              else handler d c call none s))
          allowed
      ∙ ap (λ x. continue (λ r. handler d c call (some r)) x) (ensure_ready_again c s ready)

module _ (d : Deployment) (props : IsTable d.props) (apart : IsApart d props)
    (users : IsTable d.users)
    (count_lem : (k : Text) (u : d.users.Db)
      → d.count k u ≡ (ok (row_count (IsTable.row users u k)), u))
    (blocked : IsBlocked d.blocked)
    (blocked_get_put : (b : d.blocked.Db) (m : d.props.Db)
      → d.main_blocked.get (d.main_blocked.put b m) ≡ b) where
  put_main_um-blocked :
      (o : Option d.users.Db) (m : d.props.Db)
      → d.main_blocked.get (put_main_um d o m) ≡ d.main_blocked.get m
  put_main_um-blocked none m = refl
  put_main_um-blocked (some u) m = apart.blocked_users u m

  abbrev login_to : Fields → World d.users → Outcome Response × World d.users
  login_to = login d.users users d.hashing d.count d.driver_probe count_lem d.env

  -- The user that a login finds, once the default one is seeded.
  abbrev pub found_user : State d → Text → Option Admin
  found_user s u =
      found d.users users d.hashing d.count d.driver_probe count_lem d.env (auth_world d s) u

  -- A login with the password of a user who need not change it.
  pub record IsLogin (fields : Fields) (u p : Text) (s : State d) : Type 0 where
    pub request :
        IsRequest d.users users d.hashing d.count d.driver_probe count_lem d.env fields u p
    pub matches : password_matches d.users d.hashing (found_user s u) p ≡ true
    pub settled : must_change (found_user s u) ≡ false
    pub named : is_empty u ≡ false

  abbrev pub behind_login : Conditions → Fields → State d → State d
  behind_login c fields s = (answer d c (call_password_login (some (obj fields))) s).1

  abbrev session_after_login : Bool → Bool → Text → Session → Session
  session_after_login = session_after d.users users d.hashing d.count d.driver_probe count_lem d.env

  -- The session behind such a login.
  login-user :
      (c : Conditions) (fields : Fields) (u p : Text) (s : State d)
      → IsLogin fields u p s
      → (behind_login c fields s).session.admin_user ≡ some u
  unfolding answer handler
  login-user c fields u p s q =
      ap (λ x. x.admin_user)
        (password_login-found d.users users d.hashing d.count d.driver_probe count_lem d.env fields
          (auth_world d s) u p q.request).1
      ∙ ap₂ (λ good must. (session_after_login good must u s.session).admin_user) q.matches
          q.settled

  -- What a deletion does to the process.
  pub record HasDeleted (c : Conditions) (k : ℕ) (s : State d) (x : Outcome Response × State d)
      : Type 0 where
    pub replied : status x.0 ≡ 200
    pub left :
        blocked.rows (d.main_blocked.get x.1.main)
        ≡ keep (λ a. not (eqb a.id k)) (blocked.rows (d.main_blocked.get s.main))
    pub sent : x.1.signals ≡ s.signals ++ signalled d.blocked blocked d.env c.pid

  delete-let_in :
      (c : Conditions) (k : ℕ) (s : State d)
      → (is_auth_required d.env && is_unset s.session.admin_user) ≡ false
      → s.config.db_ready ≡ true
      → HasDeleted c k s (answer d c (call_delete_address k) s)
  unfolding handler
  delete-let_in c k s allowed ready =
      let did =
        delete_address-rows d.blocked blocked d.env (some true) c.pid k (blocked_api d s)
          (record { allowed = allowed; is_ready = refl }) in
      subst (HasDeleted c k s) (sym (answer-asked d c (call_delete_address k) s refl allowed ready))
        (record {
          replied = did.replied;
          left = ap blocked.rows (blocked_get_put _ s.main) ∙ did.left;
          sent = did.sent;
        })

  -- A login with the password of a user who need not change it opens the guarded routes: where the
  -- database counts as ready, a deletion that follows is answered by 200, leaves exactly the
  -- addresses with another id, whatever the login did to the users, and signals the service. The
  -- tables are to answer, and those of the main database to be apart.
  pub login-delete :
      (c later : Conditions) (fields : Fields) (u p : Text) (k : ℕ) (s : State d)
      → IsLogin fields u p s
      → s.config.db_ready ≡ true
      → HasDeleted later k s (answer d later (call_delete_address k) (behind_login c fields s))
  unfolding answer handler
  login-delete c later fields u p k s q ready =
      let next = behind_login c fields s in
      let did =
        delete-let_in later k next
          (let_in d _ _ (set_user d _ u (login-user c fields u p s q) q.named)) ready in
      record {
        replied = did.replied;
        left =
            did.left
            ∙ ap (λ b. keep (λ a. not (eqb a.id k)) (blocked.rows b))
                (put_main_um-blocked _ s.main);
        sent = did.sent;
      }
