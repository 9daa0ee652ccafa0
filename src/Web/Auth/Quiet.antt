-- ===== src/Web/Auth/Quiet.antt =====
-- Which steps of a handler log a client in.
use postfixblocker.Prelude.{
  ℕ, ◌≡◌, refl, ap, ◌∙◌, ◌⊎◌, inl, inr, Bool, true, false, Option, none, some, [], ◌∷◌, ◌||◌,
  if◌then◌else◌,
}
use postfixblocker.Text.{Text, codes, is_empty}
use postfixblocker.Exec.{
  Outcome, ok, raised, Exec, pure, lift, get_state, continue, handle_tt, ◌>>=◌, ◌>>◌,
}
use postfixblocker.Db.Table.{Table, IsTable}
use postfixblocker.Db.Admins.{
  Admin, Hashing, seed_default_admin, get_admin_by_username, set_admin_password,
  check_admin_password,
}
use postfixblocker.Db.Admins.Laws.{get_admin_lem}
use postfixblocker.Web.Json.{Json, get_field, stripped_or}
use postfixblocker.Web.Http.{Response, status}
use postfixblocker.Web.Auth.{
  Env, World, default_username, default_password, text_or, must_change, has_webauthn, session_info,
  on_um_db, um_db, json_fields, set_pending, set_logged_in, finish_login, seed_admin, login_with,
  password_login, old_is_wrong, store_password, change_with, password_change, me_as, me,
}
use postfixblocker.Web.Auth.Engines.{on_um_db-read, with_um_db-session}

module _ (t : Table Admin) where
  -- A step that leaves the user of the session.
  pub record IsQuiet {A : Type 0} (m : Exec (World t) A) : Type 0 where
    pub leaves : (w : World t) → (m w).1.session.admin_user ≡ w.session.admin_user

  -- A handler that replies 200 or leaves the user.
  pub record IsCareful (m : Exec (World t) Response) : Type 0 where
    pub replies :
        (w : World t) → (status (m w).0 ≡ 200) ⊎ ((m w).1.session.admin_user ≡ w.session.admin_user)

  pub on_um_db-IsQuiet : {A : Type 0} (m : Exec t.Db A) → IsQuiet (on_um_db t m)
  on_um_db-IsQuiet m = record {
    leaves = λ w. ap (λ s. s.admin_user) (with_um_db-session t w (m (um_db t w)).1);
  }

  continue-leaves :
      {A B : Type 0} (f : A → Exec (World t) B) (w : World t)
      → ((a : A) → IsQuiet (f a))
      → (x : Outcome A × World t) → x.1.session.admin_user ≡ w.session.admin_user
      → (continue f x).1.session.admin_user ≡ w.session.admin_user
  continue-leaves f w k (ok a, s) h = (k a).leaves s ∙ h
  continue-leaves f w k (raised e, s) h = h

  pub bind-IsQuiet :
      {A B : Type 0} {m : Exec (World t) A} {f : A → Exec (World t) B}
      → IsQuiet m
      → ((a : A) → IsQuiet (f a))
      → IsQuiet (m >>= f)
  bind-IsQuiet {m = m} {f = f} q k = record {
    leaves = λ w. continue-leaves f w k (m w) (q.leaves w);
  }

  continue-replies :
      {A : Type 0} (f : A → Exec (World t) Response) (w : World t)
      → ((a : A) → IsCareful (f a))
      → (x : Outcome A × World t) → x.1.session.admin_user ≡ w.session.admin_user
      → (status (continue f x).0 ≡ 200)
        ⊎ ((continue f x).1.session.admin_user ≡ w.session.admin_user)
  continue-replies f w k (ok a, s) h = elim ((k a).replies s) [
    | inl e ↦ inl e
    | inr e ↦ inr (e ∙ h)
  ]
  continue-replies f w k (raised e, s) h = inr h

  pub bind-IsCareful :
      {A : Type 0} {m : Exec (World t) A} {f : A → Exec (World t) Response}
      → IsQuiet m
      → ((a : A) → IsCareful (f a))
      → IsCareful (m >>= f)
  bind-IsCareful {m = m} {f = f} q k = record {
    replies = λ w. continue-replies f w k (m w) (q.leaves w);
  }

  pub if-IsCareful :
      (b : Bool) {m n : Exec (World t) Response}
      → IsCareful m
      → IsCareful n
      → IsCareful (if b then m else n)
  if-IsCareful true q r = q
  if-IsCareful false q r = r

  if-IsQuiet :
      {A : Type 0} (b : Bool) {m n : Exec (World t) A}
      → IsQuiet m
      → IsQuiet n
      → IsQuiet (if b then m else n)
  if-IsQuiet true q r = q
  if-IsQuiet false q r = r

  pub reply-IsCareful : (r : Response) → IsCareful (pure r)
  reply-IsCareful r = record { replies = λ w. inr refl }

  pub lift-IsQuiet : {A : Type 0} (r : Outcome A) → IsQuiet (lift r)
  lift-IsQuiet r = record { leaves = λ w. refl }

  pub get_state-IsQuiet : IsQuiet get_state
  get_state-IsQuiet = record { leaves = λ w. refl }

  set_pending-IsQuiet : (o : Option Text) → IsQuiet (set_pending t o)
  set_pending-IsQuiet o = record { leaves = λ w. refl }

  json_leaves :
      (body : Option Json) (w : World t)
      → (json_fields t body w).1.session.admin_user ≡ w.session.admin_user
  json_leaves none w = refl
  json_leaves (some json) w = refl

  json_fields-IsQuiet : (body : Option Json) → IsQuiet (json_fields t body)
  json_fields-IsQuiet body = record { leaves = json_leaves body }

  -- The end of the handlers that log a client in: reading the user does not fail.
  pub logged_in-IsCareful :
      (hashing : Hashing) (laws : IsTable t) (u : Text)
      → IsCareful (do
        set_logged_in t u
        admin ← on_um_db t (get_admin_by_username t hashing u)
        pure (session_info true u false (some (has_webauthn admin))))
  unfolding set_logged_in
  logged_in-IsCareful hashing laws u = record {
    replies = λ w. inl (
        rw
          (on_um_db-read t (get_admin_by_username t hashing u)
            (record w { session = record w.session { admin_user = some u } })
            (get_admin_lem t laws hashing u (um_db t w)))
          refl);
  }

  module _ (hashing : Hashing) (count : Text → Exec t.Db ℕ) (driver_probe : Text → Exec t.Db Bool)
      (env : Env) where
    finish_login-IsCareful :
        (u : Text) (a : Option Admin)
        → IsCareful (finish_login t hashing count driver_probe env u a)
    unfolding finish_login set_logged_in
    finish_login-IsCareful u a =
        if-IsCareful (must_change a) (record { replies = λ w. inl refl })
          (record { replies = λ w. inl refl })

    abbrev seeding : Exec t.Db (Unit {0})
    seeding =
        seed_default_admin t hashing count driver_probe (default_username env) default_password

    seed_admin-IsQuiet : IsQuiet (seed_admin t hashing count driver_probe env)
    unfolding seed_admin
    seed_admin-IsQuiet = record {
      leaves = λ w.
          ap (λ v. v.1.session.admin_user) (handle_tt (on_um_db t seeding w))
          ∙ (on_um_db-IsQuiet seeding).leaves w;
    }

    login_with-IsCareful :
        (u p : Text) → IsCareful (login_with t hashing count driver_probe env u p)
    unfolding login_with
    login_with-IsCareful u p = bind-IsCareful seed_admin-IsQuiet (λ _.
        bind-IsCareful (on_um_db-IsQuiet (check_admin_password t hashing u p)) (λ good.
          if-IsCareful good
            (bind-IsCareful (on_um_db-IsQuiet (get_admin_by_username t hashing u))
              (λ admin. finish_login-IsCareful u admin))
            (reply-IsCareful _)))

    -- A login that is not answered by 200 leaves the user of the session.
    pub password_login-IsCareful :
        (body : Option Json) → IsCareful (password_login t hashing count driver_probe env body)
    unfolding password_login
    password_login-IsCareful body = bind-IsCareful (json_fields-IsQuiet body) (λ data'.
        bind-IsCareful
          (lift-IsQuiet (stripped_or (get_field (codes "username") data') (default_username env)))
          (λ username.
            bind-IsCareful (lift-IsQuiet (stripped_or (get_field (codes "password") data') []))
              (λ password. login_with-IsCareful username password)))

    me_as-IsQuiet : (o : Option Text) → IsQuiet (me_as t hashing count driver_probe env o)
    unfolding me_as
    me_as-IsQuiet none = record { leaves = λ w. refl }
    me_as-IsQuiet (some []) = record { leaves = λ w. refl }
    me_as-IsQuiet (some (c ∷ u)) =
        bind-IsQuiet (on_um_db-IsQuiet (get_admin_by_username t hashing (c ∷ u)))
          (λ a. record { leaves = λ w. refl })

    pub me-IsQuiet : IsQuiet (me t hashing count driver_probe env)
    unfolding me
    me-IsQuiet = record { leaves = λ w. (me_as-IsQuiet w.session.admin_user).leaves w }

    old_is_wrong-IsQuiet :
        (u p : Text) → IsQuiet (old_is_wrong t hashing count driver_probe env u p)
    unfolding old_is_wrong
    old_is_wrong-IsQuiet u p =
        if-IsQuiet (is_empty p) (record { leaves = λ w. refl })
          (bind-IsQuiet (on_um_db-IsQuiet (check_admin_password t hashing u p))
            (λ good. record { leaves = λ w. refl }))

    module _ (laws : IsTable t) where
      store_password-IsCareful :
          (u p : Text) → IsCareful (store_password t hashing count driver_probe env u p)
      unfolding store_password
      store_password-IsCareful u p =
          bind-IsCareful (on_um_db-IsQuiet (set_admin_password t hashing u p false)) (λ _.
            bind-IsCareful (set_pending-IsQuiet none) (λ _. logged_in-IsCareful hashing laws u))

      change_with-IsCareful :
          (u o p : Text) → IsCareful (change_with t hashing count driver_probe env u o p)
      unfolding change_with
      change_with-IsCareful u o p = if-IsCareful (is_empty u || is_empty p) (reply-IsCareful _) (
          bind-IsCareful (old_is_wrong-IsQuiet u o)
            (λ wrong. if-IsCareful wrong (reply-IsCareful _) (store_password-IsCareful u p)))

      -- So does a change of the password.
      pub password_change-IsCareful :
          (body : Option Json) → IsCareful (password_change t hashing count driver_probe env body)
      unfolding password_change
      password_change-IsCareful body = bind-IsCareful (json_fields-IsQuiet body) (λ data'.
          bind-IsCareful get_state-IsQuiet (λ w.
            bind-IsCareful
              (lift-IsQuiet (
                stripped_or (get_field (codes "username") data')
                  (text_or w.session.pending_username (default_username env))))
              (λ username.
                bind-IsCareful
                  (lift-IsQuiet (stripped_or (get_field (codes "old_password") data') []))
                  (λ old.
                    bind-IsCareful
                      (lift-IsQuiet (stripped_or (get_field (codes "new_password") data') []))
                      (λ new. change_with-IsCareful username old new)))))
