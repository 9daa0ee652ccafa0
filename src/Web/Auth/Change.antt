-- ===== src/Web/Auth/Change.antt =====
-- What `password_change` asks for, and what it leaves.
use postfixblocker.Prelude.{
  ℕ, ◌≡◌, refl, ap, ◌∙◌, Bool, Bool-cases, inl, inr, arith, not, ◌&&◌, ◌||◌, if◌then◌else◌, true,
  false, none, some, [], ◌∷◌,
}
use postfixblocker.Text.{Text, codes, ◌==◌, ==_self, is_empty}
use postfixblocker.Exec.{ok, Exec, Outcome}
use postfixblocker.Db.Table.{Table, IsTable}
use postfixblocker.Db.Admins.{
  Admin, Hashing, set_admin_password, check_admin_password, get_admin_by_username, password_matches,
}
use postfixblocker.Db.Admins.Laws.{
  IsHashing, set_admin_password-ok, get_admin_lem, check_admin_password_lem,
  check-set_admin_password,
}
use postfixblocker.Web.Json.{Fields, obj, get_field, stripped_or}
use postfixblocker.Web.Http.{Response, status, error_response}
use postfixblocker.Web.Auth.{
  Env, World, default_username, text_or, um_db, with_um_db, on_um_db, session_info, has_webauthn,
  store_password, change_with, password_change,
}
use postfixblocker.Web.Auth.Engines.{um_db-with_um_db, on_um_db-read}

or_false : (a b : Bool) → (a || b) ≡ false → (a ≡ false) × (b ≡ false)
or_false a b h = (ground arith, ground arith)

nor_parts : (a b : Bool) → (not a && not b) ≡ true → (a ≡ false) × (b ≡ false)
nor_parts a b h = (ground arith, ground arith)

unnegate : (b : Bool) → not b ≡ false → b ≡ true
unnegate b h = ground arith

module _ (t : Table Admin) (laws : IsTable t) (hashing : Hashing) (count : Text → Exec t.Db ℕ)
    (driver_probe : Text → Exec t.Db Bool) (env : Env) where
  open t use {Db}

  -- A request whose fields read as a user, an old password (perhaps empty) and a new password.
  pub record IsRequest (fields : Fields) (w : World t) (u old new : Text) : Type 0 where
    pub user_field :
        stripped_or
          (get_field (codes "username") fields)
          (text_or w.session.pending_username (default_username env))
        ≡ ok u
    pub old_field : stripped_or (get_field (codes "old_password") fields) [] ≡ ok old
    pub new_field : stripped_or (get_field (codes "new_password") fields) [] ≡ ok new
    pub has_user : is_empty u ≡ false
    pub has_new : is_empty new ≡ false

  abbrev pub change : Fields → World t → Outcome Response × World t
  change fields = password_change t hashing count driver_probe env (some (obj fields))

  password_change_lem :
      (fields : Fields) (w : World t) (u old new : Text)
      → IsRequest fields w u old new
      → change fields w ≡ change_with t hashing count driver_probe env u old new w
  unfolding password_change
  password_change_lem fields w u old new q = rw (q.user_field, q.old_field, q.new_field)

  read_admin :
      (u : Text) (w : World t)
      → on_um_db t (get_admin_by_username t hashing u) w ≡ (ok (IsTable.row laws (um_db t w) u), w)
  read_admin u w =
      on_um_db-read t (get_admin_by_username t hashing u) w
        (get_admin_lem t laws hashing u (um_db t w))

  -- The database after the new password is stored.
  abbrev stored : World t → Text → Text → Db
  stored w u p = (set_admin_password t hashing u p false (um_db t w)).1

  abbrev pub logged_in : World t → Text → World t
  logged_in w u = record w {
    session = record (w.session) { admin_user = some u; pending_username = none };
  }

  store_password_lem :
      (w : World t) (u p : Text)
      → store_password t hashing count driver_probe env u p w ≡ (
        ok (
            session_info true u false (
              some (
                has_webauthn
                  (IsTable.row laws (um_db t (logged_in (with_um_db t w (stored w u p)) u)) u)))),
        logged_in (with_um_db t w (stored w u p)) u,
      )
  unfolding store_password
  store_password_lem w u p = rw (
    set_admin_password-ok t laws hashing u p false (um_db t w),
    read_admin u (logged_in (with_um_db t w (stored w u p)) u),
  )

  change_without_old :
      (w : World t) (u new : Text)
      → is_empty u ≡ false
      → is_empty new ≡ false
      → change_with t hashing count driver_probe env u [] new w
        ≡ store_password t hashing count driver_probe env u new w
  unfolding change_with
  change_without_old w u new hu hn = rw (hu, hn)

  -- What a stored password means for the client and for later logins.
  pub record IsStored (r : Outcome Response × World t) (u new : Text) : Type 0 where
    pub replied : status r.0 ≡ 200
    pub session_user : r.1.session.admin_user ≡ some u
    pub accepts : (c : Text) → (check_admin_password t hashing u c (um_db t r.1)).0 ≡ ok (new == c)

  module _ (hash_laws : IsHashing hashing) where
    store_password-IsStored :
        (w : World t) (u new : Text)
        → IsStored (store_password t hashing count driver_probe env u new w) u new
    store_password-IsStored w u new = rw store_password_lem (record {
      replied = refl;
      session_user = refl;
      accepts = λ c.
          ap (λ d. (check_admin_password t hashing u c d).0) (um_db-with_um_db t w (stored w u new))
          ∙ check-set_admin_password t laws hashing hash_laws u new false u c (um_db t w)
          ∙ rw ==_self;
    })

    -- Whoever sends the request, and whatever password the user has, a request with no old password
    -- is answered by 200, logs the client in as that user, and makes the new password the only one
    -- that is accepted for the user.
    pub password_change_without_old :
        (fields : Fields) (w : World t) (u new : Text)
        → IsRequest fields w u [] new
        → (status (change fields w).0 ≡ 200)
          × ((change fields w).1.session.admin_user ≡ some u)
          × ((c : Text)
              → (check_admin_password t hashing u c (um_db t (change fields w).1)).0
                ≡ ok (new == c))
    password_change_without_old fields w u new q =
        let e : change fields w ≡ store_password t hashing count driver_probe env u new w =
          password_change_lem fields w u [] new q
          ∙ change_without_old w u new q.has_user q.has_new in
        let s = store_password-IsStored w u new in rw e (s.replied, s.session_user, s.accepts)

  change_with_wrong_old :
      (w : World t) (u old new : Text)
      → is_empty u ≡ false
      → is_empty new ≡ false
      → is_empty old ≡ false
      → password_matches t hashing (IsTable.row laws (um_db t w) u) old ≡ false
      → change_with t hashing count driver_probe env u old new w
        ≡ (ok (error_response 401 (codes "invalid credentials")), w)
  unfolding change_with
  change_with_wrong_old w u old new hu hn ho wrong = rw (
    hu,
    hn,
    ho,
    on_um_db-read t (check_admin_password t hashing u old) w
        (check_admin_password_lem t laws hashing u old (um_db t w)),
    wrong,
  )

  -- A request whose fields read as a user, an old and a new password, any of them perhaps empty.
  pub record IsRead (fields : Fields) (w : World t) (u old new : Text) : Type 0 where
    pub user_field :
        stripped_or
          (get_field (codes "username") fields)
          (text_or w.session.pending_username (default_username env))
        ≡ ok u
    pub old_field : stripped_or (get_field (codes "old_password") fields) [] ≡ ok old
    pub new_field : stripped_or (get_field (codes "new_password") fields) [] ≡ ok new

  -- A request that is refused: the status, and that nothing changes.
  pub record IsDenied (code : ℕ) (w : World t) (r : Outcome Response × World t) : Type 0 where
    pub denied : status r.0 ≡ code
    pub unchanged : r.1 ≡ w

  -- The old password is given, and it is not the user's.
  abbrev pub has_wrong_old : World t → Text → Text → Bool
  has_wrong_old w u old =
      not (is_empty old) && not (password_matches t hashing (IsTable.row laws (um_db t w) u) old)

  change_with_right_old :
      (w : World t) (u old new : Text)
      → is_empty u ≡ false
      → is_empty new ≡ false
      → has_wrong_old w u old ≡ false
      → change_with t hashing count driver_probe env u old new w
        ≡ store_password t hashing count driver_probe env u new w
  unfolding change_with
  change_with_right_old w u [] new hu hn right = change_without_old w u new hu hn
  change_with_right_old w u (c ∷ old) new hu hn right = rw (
    hu,
    hn,
    on_um_db-read t (check_admin_password t hashing u (c ∷ old)) w
        (check_admin_password_lem t laws hashing u (c ∷ old) (um_db t w)),
    unnegate _ right,
  )

  password_change_read :
      (fields : Fields) (w : World t) (u old new : Text)
      → IsRead fields w u old new
      → change fields w ≡ change_with t hashing count driver_probe env u old new w
  unfolding password_change
  password_change_read fields w u old new q = rw (q.user_field, q.old_field, q.new_field)

  change_with_empty :
      (w : World t) (u old new : Text)
      → (is_empty u || is_empty new) ≡ true
      → change_with t hashing count driver_probe env u old new w
        ≡ (ok (error_response 400 (codes "username and new_password required")), w)
  unfolding change_with
  change_with_empty w u old new e = rw e refl

  module _ (hash_laws : IsHashing hashing) where
    -- On a table that answers, where a hash accepts just the password that it was made of, and for a
    -- body whose fields can be read: without a user or without a new password the reply is 400,
    -- and with an old password that is not the user's it is 401, and neither changes anything. Else
    -- the reply is 200, the client is logged in as the user, and the new password is the only one
    -- that is accepted for the user.
    pub password_change-decides :
        (fields : Fields) (w : World t) (u old new : Text)
        → IsRead fields w u old new
        → if is_empty u || is_empty new
          then IsDenied 400 w (change fields w)
          else if has_wrong_old w u old
          then IsDenied 401 w (change fields w)
          else IsStored (change fields w) u new
    password_change-decides fields w u old new q =
        rw (password_change_read fields w u old new q)
          (elim (Bool-cases (is_empty u || is_empty new)) [
            | inl e ↦
                rw (e, change_with_empty w u old new e) (record { denied = refl; unchanged = refl })
            | inr e ↦ elim (Bool-cases (has_wrong_old w u old)) [
              | inl wrong ↦
                  rw
                    (
                      e,
                      wrong,
                      change_with_wrong_old w u old new (or_false _ _ e).0 (or_false _ _ e).1
                          (nor_parts _ _ wrong).0 (nor_parts _ _ wrong).1,
                    )
                    (record { denied = refl; unchanged = refl })
              | inr right ↦
                  rw
                    (
                      e,
                      right,
                      change_with_right_old w u old new (or_false _ _ e).0 (or_false _ _ e).1 right,
                    )
                    (store_password-IsStored hash_laws w u new)
            ]
          ])
