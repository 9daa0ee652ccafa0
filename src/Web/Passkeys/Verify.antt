-- ===== src/Web/Passkeys/Verify.antt =====
-- What `login_verify` asks for and leaves, and that it knows the key that `register_verify` stored.
use postfixblocker.Prelude.{◌≡◌, refl, sym, subst, ap, ap₂, ◌∙◌, some}
use postfixblocker.Text.{Text, is_empty}
use postfixblocker.Text.Decimal.{ℤ}
use postfixblocker.Exec.{Exn, Outcome, ok, raised, Exec, lift, ◌>>=◌}
use postfixblocker.Db.Table.{Table, IsTable, map_row}
use postfixblocker.Db.Admins.{Admin, Hashing, get_admin_by_username, update_admin_sign_count}
use postfixblocker.Db.Admins.Laws.{get_admin_lem}
use postfixblocker.Db.Admins.Passkey.{
  with_count, update_admin_sign_count-ok, update_admin_sign_count-row,
}
use postfixblocker.Web.Http.{Response, status}
use postfixblocker.Web.Auth.{
  Session, Env, World, default_username, um_db, with_um_db, on_um_db, set_logged_in,
}
use postfixblocker.Web.Auth.Engines.{um_db-with_um_db, with_um_db-session, on_um_db-read}
use postfixblocker.Web.Passkeys.{
  WebAuthn, Base64, Site, rp_id_of, origin_of, or_empty, set_text, sign_count_of,
  expected_challenge, finish_verify, check_assertion, verify_with, login_verify,
}

-- Decoding undoes encoding, and only nothing is encoded as nothing.
pub record IsBase64 (b64 : Base64) : Type 0 where
  pub decode_encode : (b : Text) → b64.decode (b64.encode b) ≡ ok b
  pub is_empty-encode : (b : Text) → is_empty (b64.encode b) ≡ is_empty b

module _ (t : Table Admin) (laws : IsTable t) (env : Env) where
  open t use {Db}
  open laws use {row}

  -- What becomes of a request for each end of the check: for a new counter the reply is 200, the
  -- client is logged in, the challenge stays in the session, and the counter is stored; an exception
  -- is passed on, and nothing changes.
  pub data Decided (w : World t) (a : Admin) : Outcome ℤ → Outcome Response × World t → Type 0 where
    passed :
        {n : ℤ} {r : Outcome Response × World t}
        → status r.0 ≡ 200
        → r.1.session ≡ record (w.session) { admin_user = some (default_username env) }
        → row (um_db t r.1) (default_username env) ≡ some (with_count n a)
        → Decided w a (ok n) r
    failed :
        {e : Exn} {r : Outcome Response × World t} → r ≡ (raised e, w) → Decided w a (raised e) r

module _ (t : Table Admin) (laws : IsTable t) (hashing : Hashing) (wa : WebAuthn) (b64 : Base64)
    (env : Env) (site : Site) where
  open t use {Db}
  open laws use {row}
  open wa use {Credential}

  abbrev pub user : Text
  user = default_username env

  abbrev pub verify_login : Text → Exec (World t) Response
  verify_login = login_verify t hashing wa b64 env site

  pub read_user :
      (u : Text) (w : World t)
      → on_um_db t (get_admin_by_username t hashing u) w ≡ (ok (row (um_db t w) u), w)
  read_user u w =
      on_um_db-read t (get_admin_by_username t hashing u) w
        (get_admin_lem t laws hashing u (um_db t w))

  -- The world after an accepted assertion with some counter.
  abbrev counted : World t → ℤ → World t
  counted w n = with_um_db t w (update_admin_sign_count t hashing user n (um_db t w)).1

  abbrev pub accepted : World t → ℤ → World t
  accepted w n = record (counted w n) {
    session = record (counted w n).session { admin_user = some user };
  }

  finish_verify_lem :
      (w : World t) (n : ℤ)
      → (status (finish_verify t hashing wa b64 env site user n w).0 ≡ 200)
        × ((finish_verify t hashing wa b64 env site user n w).1 ≡ accepted w n)
  unfolding finish_verify set_logged_in
  finish_verify_lem w n =
      rw
        (
          update_admin_sign_count-ok t laws hashing user n (um_db t w),
          read_user user (accepted w n),
        )
        (refl, refl)

  -- The user has a public key, the package is there, and the body holds a credential.
  pub record IsAttempt (verify : Credential → Text → Text → Text → Text → ℤ → Outcome ℤ)
      (body : Text) (cred : Credential) (key : Text) (a : Admin) (d : Db) : Type 0 where
    pub parse : Text → Outcome Credential
    pub has_verify : wa.verify_authentication ≡ some verify
    pub has_parse : wa.authentication_credential ≡ some parse
    pub parses : parse body ≡ ok cred
    pub has_row : row d user ≡ some a
    pub has_key : set_text a.webauthn_public_key ≡ some key

  pub accepted-session :
      (w : World t) (n : ℤ) → (accepted w n).session ≡ record (w.session) { admin_user = some user }
  accepted-session w n =
      ap {A = Session} (λ s. record s { admin_user = some user })
        (with_um_db-session t w (update_admin_sign_count t hashing user n (um_db t w)).1)

  pub accepted-row :
      (w : World t) (a : Admin) (n : ℤ)
      → row (um_db t w) user ≡ some a
      → row (um_db t (accepted w n)) user ≡ some (with_count n a)
  accepted-row w a n e =
      ap (λ d. row d user)
        (um_db-with_um_db t w (update_admin_sign_count t hashing user n (um_db t w)).1)
      ∙ update_admin_sign_count-row t laws hashing user n (um_db t w)
      ∙ ap (map_row (with_count n)) e

  accepted-Decided :
      (w : World t) (a : Admin) (n : ℤ)
      → row (um_db t w) user ≡ some a
      → Decided t laws env w a (ok n) (finish_verify t hashing wa b64 env site user n w)
  accepted-Decided w a n e =
      let (done, after) = finish_verify_lem w n in
      passed done (ap (λ x. x.session) after ∙ accepted-session w n)
        (ap (λ x. row (um_db t x) user) after ∙ accepted-row w a n e)

  -- The rest of the route, once the check has ended.
  abbrev pub checked : Outcome ℤ → Exec (World t) Response
  checked r = do n ← lift r; finish_verify t hashing wa b64 env site user n

  verify_with_lem :
      (verify : Credential → Text → Text → Text → Text → ℤ → Outcome ℤ)
      (parse : Text → Outcome Credential) (body : Text) (cred : Credential) (key : Text) (a : Admin)
      (w : World t)
      → parse body ≡ ok cred
      → row (um_db t w) user ≡ some a
      → set_text a.webauthn_public_key ≡ some key
      → verify_with t hashing wa b64 env site (some verify) (some parse) body w
        ≡ checked
            (verify cred
              (expected_challenge t hashing wa b64 env site w)
              (rp_id_of site)
              (origin_of site)
              (or_empty (b64.decode key))
              (sign_count_of (some a)))
            w
  unfolding verify_with check_assertion
  verify_with_lem verify parse body cred key a w p e k = rw (read_user user w, e, k, p) refl

  pub checked-Decided :
      (r : Outcome ℤ) (w : World t) (a : Admin)
      → row (um_db t w) user ≡ some a
      → Decided t laws env w a r (checked r w)
  checked-Decided (ok n) w a e = accepted-Decided w a n e
  checked-Decided (raised x) w a e = failed refl

  -- The route is the rest after the call of the package.
  pub login_verify_lem :
      (verify : Credential → Text → Text → Text → Text → ℤ → Outcome ℤ) (body : Text)
      (cred : Credential) (key : Text) (a : Admin) (w : World t)
      → IsAttempt verify body cred key a (um_db t w)
      → verify_login body w
        ≡ checked
            (verify cred
              (expected_challenge t hashing wa b64 env site w)
              (rp_id_of site)
              (origin_of site)
              (or_empty (b64.decode key))
              (sign_count_of (some a)))
            w
  unfolding login_verify
  login_verify_lem verify body cred key a w q =
      ap₂ (λ f p. verify_with t hashing wa b64 env site f p body w) q.has_verify q.has_parse
      ∙ verify_with_lem verify q.parse body cred key a w q.parses q.has_row q.has_key

  pub after-login_verify :
      (verify : Credential → Text → Text → Text → Text → ℤ → Outcome ℤ) (body : Text)
      (cred : Credential) (key : Text) (a : Admin) (w : World t) (n : ℤ)
      → IsAttempt verify body cred key a (um_db t w)
      → verify cred
          (expected_challenge t hashing wa b64 env site w)
          (rp_id_of site)
          (origin_of site)
          (or_empty (b64.decode key))
          (sign_count_of (some a))
        ≡ ok n
      → (verify_login body w).1 ≡ accepted w n
  after-login_verify verify body cred key a w n q e =
      ap (λ r. r.1) (login_verify_lem verify body cred key a w q)
      ∙ ap (λ r. (checked r w).1) e
      ∙ (finish_verify_lem w n).1

  -- For a default user with a public key, a package that is there, and a body that holds a
  -- credential: `login_verify` asks the package to check the assertion against the challenge of the
  -- session, the relying party, the origin, and the stored public key and counter of that user, and
  -- logs in exactly if that check returns.
  pub login_verify-Decided :
      (verify : Credential → Text → Text → Text → Text → ℤ → Outcome ℤ) (body : Text)
      (cred : Credential) (key : Text) (a : Admin) (w : World t)
      → IsAttempt verify body cred key a (um_db t w)
      → Decided t laws env w a
          (verify cred
            (expected_challenge t hashing wa b64 env site w)
            (rp_id_of site)
            (origin_of site)
            (or_empty (b64.decode key))
            (sign_count_of (some a)))
          (verify_login body w)
  login_verify-Decided verify body cred key a w q =
      subst (Decided t laws env w a _) (sym (login_verify_lem verify body cred key a w q))
        (checked-Decided _ w a q.has_row)
