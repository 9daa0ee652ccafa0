-- ===== src/Web/App/Unauthenticated.antt =====
-- What a client that is not logged in can change.
use postfixblocker.Prelude.{
  ◌≡◌, refl, subst, sym, ap, ◌∙◌, inl, inr, not, ◌&&◌, Bool, true, false, none, List, [], ◌∷◌, eqb,
  Bool-cases, if◌then◌else◌, arith,
}
use postfixblocker.Exec.{Exn, Outcome, raised, Exec}
use postfixblocker.Db.Table.{IsTable}
use postfixblocker.Web.TestReset.{is_enabled}
use postfixblocker.Web.TestReset.Disabled.{forbidden, reset_state-forbidden, dump_state-forbidden}
use postfixblocker.Web.Http.{Response, status}
use postfixblocker.Web.Auth.{World, is_auth_required, is_unset}
use postfixblocker.Web.Auth.Guard.{IsRefused}
use postfixblocker.Web.Auth.Quiet.{
  IsQuiet, IsCareful, password_login-IsCareful, password_change-IsCareful, me-IsQuiet,
}
use postfixblocker.Web.Passkeys.Quiet.{login_challenge-IsQuiet, login_verify-IsCareful}
use postfixblocker.Web.App.Process.{
  Deployment, Conditions, Call, call_password_login, call_password_change, call_me,
  call_login_challenge, call_login_verify, call_test_reset, call_test_dump, State, auth_world,
  on_auth, with_tests,
}
use postfixblocker.Web.App.{asks_ready, asks_for_tests, when_registered, handler, answer, serve}
use postfixblocker.Web.App.Apart.{
  is_guarded, is_login, no_login, all_refused, IsApart, IsUntouched, IsUntouched-refl,
  IsUntouched-trans, with_auth-IsUntouched,
}
use postfixblocker.Web.App.Refused.{handler-refused}

module _ (d : Deployment) (props : IsTable d.props) (users : IsTable d.users)
    (apart : IsApart d props)
    (tests_put_get : (m : d.props.Db) → d.main_tests.put (d.main_tests.get m) m ≡ m)
    (disabled : is_enabled d.test_reset_enable ≡ false) (c : Conditions) where
  on_auth-quiet :
      (m : Exec (World d.users) Response) (s : State d)
      → IsQuiet d.users m
      → IsUntouched d props s (on_auth d m s).1
  on_auth-quiet m s q =
      with_auth-IsUntouched d props apart s _ (m (auth_world d s)).1 refl
        (q.leaves (auth_world d s))

  on_auth-careful :
      (m : Exec (World d.users) Response) (s : State d)
      → IsCareful d.users m
      → eqb (status (on_auth d m s).0) 200 ≡ false
      → IsUntouched d props s (on_auth d m s).1
  on_auth-careful m s q other = elim (q.replies (auth_world d s)) [
    | inl e ↦ absurd (ground (arith, e, other))
    | inr e ↦ with_auth-IsUntouched d props apart s _ (m (auth_world d s)).1 refl e
  ]

  -- The test routes are not enabled.
  disabled_tests : (call : Call) → asks_for_tests d c call ≡ false
  disabled_tests call = ground (arith, disabled)

  on_tests-refused :
      (e : Exn) (s : State d) {x : Outcome Response × d.tests.Db}
      → x ≡ (raised e, d.main_tests.get s.main)
      → IsUntouched d props s (with_tests d s x.1)
  on_tests-refused e s h =
      subst (IsUntouched d props s)
        (sym (
          ap (λ x. with_tests d s x.1) h
          ∙ ap {A = d.props.Db} (λ main. record s { main = main }) (tests_put_get s.main)))
        (IsUntouched-refl d props s)

  when_registered-IsUntouched :
      (m : Exec (State d) Response) (s : State d)
      → IsUntouched d props s (m s).1
      → IsUntouched d props s (when_registered d c m s).1
  when_registered-IsUntouched m s h = elim (Bool-cases d.test_routes) [
    | inl e ↦ rw e h
    | inr e ↦ rw e (IsUntouched-refl d props s)
  ]

  answer-refused :
      (call : Call) (s : State d)
      → IsRefused d.env s.session
      → answer d c call s ≡ handler d c call none s
  unfolding answer
  answer-refused call s h = elim (Bool-cases (asks_ready call)) [
    | inl e ↦ rw (e, h, disabled_tests call) refl
    | inr e ↦ rw (e, disabled_tests call) refl
  ]

  abbrev Answered : Call → State d → Outcome Response × State d → Type 0
  Answered call s x =
      IsUntouched d props s x.1 × ((if is_guarded call then eqb (status x.0) 401 else true) ≡ true)

  open-Answered :
      (call : Call) (s : State d)
      → is_guarded call ≡ false
      → (is_login call && eqb (status (handler d c call none s).0) 200) ≡ false
      → IsUntouched d props s (handler d c call none s).1
  unfolding handler
  open-Answered (call_password_login body) s g other =
      on_auth-careful _ s
        (password_login-IsCareful d.users d.hashing d.count d.driver_probe d.env body) other
  open-Answered (call_password_change body) s g other =
      on_auth-careful _ s
        (password_change-IsCareful d.users d.hashing d.count d.driver_probe d.env users body) other
  open-Answered call_me s g other =
      on_auth-quiet _ s (me-IsQuiet d.users d.hashing d.count d.driver_probe d.env)
  open-Answered call_login_challenge s g other =
      on_auth-quiet _ s (login_challenge-IsQuiet d.users d.hashing d.wa d.b64 d.env d.site)
  open-Answered (call_login_verify body) s g other =
      on_auth-careful _ s
        (login_verify-IsCareful d.users d.hashing d.wa d.b64 d.env d.site users body) other
  open-Answered (call_test_reset body) s g other = when_registered-IsUntouched _ s (
      on_tests-refused forbidden s (
        reset_state-forbidden d.tests d.test_reset_enable none (d.main_tests.get s.main) disabled
          d.repr body))
  open-Answered call_test_dump s g other = when_registered-IsUntouched _ s (
      on_tests-refused forbidden s
        (dump_state-forbidden d.tests d.test_reset_enable none (d.main_tests.get s.main) disabled))
  open-Answered call s g other = absurd (ground arith)

  handler-Answered :
      (call : Call) (s : State d)
      → IsRefused d.env s.session
      → (is_login call && eqb (status (handler d c call none s).0) 200) ≡ false
      → Answered call s (handler d c call none s)
  handler-Answered call s h other = elim (Bool-cases (is_guarded call)) [
    | inl g ↦
        subst (Answered call s) (sym (handler-refused d props apart c call none s g h))
          (IsUntouched-refl d props s, rw g refl)
    | inr g ↦ (open-Answered call s g other, rw g refl)
  ]

  answer-Answered :
      (call : Call) (s : State d)
      → IsRefused d.env s.session
      → (is_login call && eqb (status (answer d c call s).0) 200) ≡ false
      → Answered call s (answer d c call s)
  answer-Answered call s h other =
      let e = answer-refused call s h in
      subst (Answered call s) (sym e) (
        handler-Answered call s h (ap (λ x. is_login call && eqb (status x.0) 200) (sym e) ∙ other))

module _ (d : Deployment) (props : IsTable d.props) (users : IsTable d.users)
    (apart : IsApart d props)
    (tests_put_get : (m : d.props.Db) → d.main_tests.put (d.main_tests.get m) m ≡ m)
    (disabled : is_enabled d.test_reset_enable ≡ false) where
  and_both : (a b : Bool) → a ≡ true → b ≡ true → (a && b) ≡ true
  and_both a b p q = rw (p, q) refl

  and_not : (a b : Bool) → (not a && b) ≡ true → (a ≡ false) × (b ≡ true)
  and_not a b h = ground arith

  -- Where authentication is required, the test routes are not enabled by TEST_RESET_ENABLE, and the
  -- tables answer and those of the main database are apart, a client that is not logged in changes
  -- nothing by calls of any routes, as long as no password login, password change or passkey login is
  -- answered by 200, except the users, the pending user and the challenge: it is not logged in
  -- afterwards, the addresses and the properties are the same, no main engine is made and no
  -- migration of the main database is run, no process is signalled, and the levels and main.cf stay.
  -- Every call of a guarded route is answered by 401.
  pub serve-IsUntouched :
      (calls : List (Conditions × Call)) (s : State d)
      → IsRefused d.env s.session
      → no_login calls (serve d calls s).0 ≡ true
      → IsUntouched d props s (serve d calls s).1 × (all_refused calls (serve d calls s).0 ≡ true)
  serve-IsUntouched [] s h other = (IsUntouched-refl d props s, refl)
  serve-IsUntouched ((c, call) ∷ calls) s h other =
      let next = (answer d c call s).1 in
      let (this, rest) = and_not _ _ other in
      let (same, refused) =
        answer-Answered d props users apart tests_put_get disabled c call s h this in
      let (p, q) =
        serve-IsUntouched calls next (ap (λ u. is_auth_required d.env && is_unset u) same.user ∙ h)
          rest in
      (IsUntouched-trans d props s next (serve d calls next).1 same p, and_both _ _ refused q)
