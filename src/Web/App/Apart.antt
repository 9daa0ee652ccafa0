-- ===== src/Web/App/Apart.antt =====
-- The routes by what they ask of a client, and states that differ only in what an open route may
-- change.
use postfixblocker.Prelude.{
  ◌≡◌, refl, sym, ap, ◌∙◌, not, ◌&&◌, Bool, true, false, Option, none, some, List, ◌∷◌, eqb,
  if◌then◌else◌,
}
use postfixblocker.Text.{Text}
use postfixblocker.Exec.{Outcome}
use postfixblocker.Db.Table.{IsTable}
use postfixblocker.Web.Http.{Response, status}
use postfixblocker.Web.Auth.{World}
use postfixblocker.Web.App.Process.{
  put_main_um, Deployment, Conditions, Call, call_password_login, call_password_change, call_me,
  call_login_challenge, call_login_verify, call_test_reset, call_test_dump, State, with_auth,
}

-- The routes behind `login_required`: all but these seven.
abbrev pub is_guarded : Call → Bool
is_guarded (call_password_login body) = false
is_guarded (call_password_change body) = false
is_guarded call_me = false
is_guarded call_login_challenge = false
is_guarded (call_login_verify body) = false
is_guarded (call_test_reset body) = false
is_guarded call_test_dump = false
is_guarded _ = true

-- The routes that can log a client in.
abbrev pub is_login : Call → Bool
is_login (call_password_login body) = true
is_login (call_password_change body) = true
is_login (call_login_verify body) = true
is_login _ = false

-- No login was answered by 200.
abbrev pub no_login : List (Conditions × Call) → List (Outcome Response) → Bool
no_login ((c, call) ∷ calls) (r ∷ rs) =
    let rest = no_login calls rs in not (is_login call && eqb (status r) 200) && rest
no_login _ _ = true

-- Every call of a guarded route was answered by 401.
abbrev pub all_refused : List (Conditions × Call) → List (Outcome Response) → Bool
all_refused ((c, call) ∷ calls) (r ∷ rs) =
    let rest = all_refused calls rs in
    (if is_guarded call then eqb (status r) 401 else true) && rest
all_refused _ _ = true

module _ (d : Deployment) where
  -- The parts of the main database are apart: `um_user` can be replaced without any other table
  -- changing, and writing back what was read changes nothing.
  pub record IsApart (props : IsTable d.props) : Type 0 where
    pub users_put_get : (m : d.props.Db) → d.main_users.put (d.main_users.get m) m ≡ m
    pub blocked_put_get : (m : d.props.Db) → d.main_blocked.put (d.main_blocked.get m) m ≡ m
    pub blocked_users :
        (u : d.users.Db) (m : d.props.Db)
        → d.main_blocked.get (d.main_users.put u m) ≡ d.main_blocked.get m
    pub props_users :
        (u : d.users.Db) (m : d.props.Db) (k : Text)
        → IsTable.row props (d.main_users.put u m) k ≡ IsTable.row props m k

  -- Two states that differ at most in the users, the pending user and the challenge.
  pub record IsUntouched (props : IsTable d.props) (s s' : State d) : Type 0 where
    pub user : s'.session.admin_user ≡ s.session.admin_user
    pub addresses : d.main_blocked.get s'.main ≡ d.main_blocked.get s.main
    pub rows : (k : Text) → IsTable.row props s'.main k ≡ IsTable.row props s.main k
    pub config : s'.config ≡ s.config
    pub executed : s'.executed ≡ s.executed
    pub signals : s'.signals ≡ s.signals
    pub root_level : s'.root_level ≡ s.root_level
    pub main_cf : s'.main_cf ≡ s.main_cf

module _ (d : Deployment) (props : IsTable d.props) where
  pub IsUntouched-refl : (s : State d) → IsUntouched d props s s
  IsUntouched-refl s = record {
    user = refl;
    addresses = refl;
    rows = λ k. refl;
    config = refl;
    executed = refl;
    signals = refl;
    root_level = refl;
    main_cf = refl;
  }

  pub IsUntouched-trans :
      (s s' s'' : State d)
      → IsUntouched d props s s'
      → IsUntouched d props s' s''
      → IsUntouched d props s s''
  IsUntouched-trans s s' s'' p q = record {
    user = q.user ∙ p.user;
    addresses = q.addresses ∙ p.addresses;
    rows = λ k. q.rows k ∙ p.rows k;
    config = q.config ∙ p.config;
    executed = q.executed ∙ p.executed;
    signals = q.signals ∙ p.signals;
    root_level = q.root_level ∙ p.root_level;
    main_cf = q.main_cf ∙ p.main_cf;
  }

module _ (d : Deployment) (props : IsTable d.props) (apart : IsApart d props) where
  pub with_auth-IsUntouched :
      (s : State d) (o : Option d.users.Db) (w : World d.users)
      → o ≡ w.db_engine
      → w.session.admin_user ≡ s.session.admin_user
      → IsUntouched d props s (with_auth d s w)
  with_auth-IsUntouched s none w e u = record {
    user = u;
    addresses = ap (λ o. d.main_blocked.get (put_main_um d o s.main)) (sym e);
    rows = λ k. ap (λ o. IsTable.row props (put_main_um d o s.main) k) (sym e);
    config = refl;
    executed = refl;
    signals = refl;
    root_level = refl;
    main_cf = refl;
  }
  with_auth-IsUntouched s (some um) w e u = record {
    user = u;
    addresses =
        ap (λ o. d.main_blocked.get (put_main_um d o s.main)) (sym e)
        ∙ apart.blocked_users um s.main;
    rows = λ k.
        ap (λ o. IsTable.row props (put_main_um d o s.main) k) (sym e)
        ∙ apart.props_users um s.main k;
    config = refl;
    executed = refl;
    signals = refl;
    root_level = refl;
    main_cf = refl;
  }
