-- ===== src/Web/Passkeys/Register.antt =====
-- That `login_verify` asks for the key that `register_verify` stored.
use postfixblocker.Prelude.{
  ◌≡◌, refl, sym, subst, ap, ap₂, ◌∙◌, false, Option, none, some, [], ◌∷◌, arith, or_else,
}
use postfixblocker.Text.{Text, is_empty}
use postfixblocker.Text.Decimal.{ℤ}
use postfixblocker.Exec.{Outcome, ok, Exec, get_state, ◌>>=◌}
use postfixblocker.Db.Table.{Table, IsTable, upserted}
use postfixblocker.Db.Admins.{Admin, Hashing, set_admin_webauthn, with_webauthn, passkey_admin}
use postfixblocker.Db.Admins.Passkey.{set_admin_webauthn-ok, set_admin_webauthn-row}
use postfixblocker.Web.Http.{Response}
use postfixblocker.Web.Auth.{
  Session, Env, World, guarded, is_unset, default_username, um_db, with_um_db,
}
use postfixblocker.Web.Auth.Engines.{um_db-with_um_db}
use postfixblocker.Web.Passkeys.{
  Registration, WebAuthn, Base64, Site, rp_id_of, origin_of, or_empty, set_text, sign_count_of,
  as_user, expected_challenge, store_registration, register_with, register_verify,
}
use postfixblocker.Web.Passkeys.Verify.{
  Decided, IsBase64, read_user, verify_login, checked, checked-Decided, login_verify_lem,
}

guarded-set :
    {S : Type 0} (session_of : S → Session) (env : Env) (fn : Exec S Response) (s : S)
    → is_unset (session_of s).admin_user ≡ false
    → guarded session_of env fn s ≡ fn s
guarded-set session_of env fn s e = ground arith

module _ (t : Table Admin) (laws : IsTable t) (hashing : Hashing) (wa : WebAuthn) (b64 : Base64)
    (env : Env) (site : Site) where
  open t use {Db}
  open laws use {row}
  open wa use {Credential}

  as_user-some :
      (o : Option Text) (u : Text) (fn : Text → Exec (World t) Response) (w : World t)
      → set_text o ≡ some u
      → (as_user t hashing wa b64 env site o fn w ≡ fn u w) × (is_unset o ≡ false)
  as_user-some none u fn w e = ground arith
  as_user-some (some []) u fn w e = ground arith
  as_user-some (some (c ∷ s)) u fn w e = (ap (λ o. fn (or_else o []) w) e, refl)

  -- A request to `register_verify` of the default user that the package accepts.
  pub record IsRegistered (body : Text) (w : World t) (r : Registration) : Type 0 where
    pub verify : Credential → Text → Text → Text → Outcome Registration
    pub parse : Text → Outcome Credential
    pub cred : Credential
    pub has_verify : wa.verify_registration ≡ some verify
    pub has_parse : wa.registration_credential ≡ some parse
    pub parses : parse body ≡ ok cred
    pub is_user : set_text w.session.admin_user ≡ some (default_username env)
    pub accepts :
        verify cred
          (expected_challenge t hashing wa b64 env site w)
          (rp_id_of site)
          (origin_of site)
        ≡ ok r

  -- The row that is left, from the row before.
  abbrev pub registered : Registration → Option Admin → Admin
  registered r old =
      let id = b64.encode r.credential_id in
      let key = b64.encode r.credential_public_key in
      upserted t old (with_webauthn t hashing id key r.sign_count)
        (passkey_admin t hashing id key r.sign_count)

  store_registration_lem :
      (u : Text) (r : Registration) (w : World t)
      → (store_registration t hashing wa b64 env site u r w).1
        ≡ with_um_db t w
            (set_admin_webauthn t hashing u
              (b64.encode r.credential_id)
              (b64.encode r.credential_public_key)
              r.sign_count
              (um_db t w)).1
  unfolding store_registration
  store_registration_lem u r w =
      rw
        (
          set_admin_webauthn-ok t laws hashing u (b64.encode r.credential_id)
              (b64.encode r.credential_public_key) r.sign_count (um_db t w),
          read_user t laws hashing wa b64 env site u (
              with_um_db t w
                (set_admin_webauthn t hashing u (b64.encode r.credential_id)
                  (b64.encode r.credential_public_key) r.sign_count (um_db t w)).1),
        )
        refl

  store_registration-row :
      (u : Text) (r : Registration) (w : World t)
      → row (um_db t (store_registration t hashing wa b64 env site u r w).1) u
        ≡ some (registered r (row (um_db t w) u))
  store_registration-row u r w =
      ap (λ v. row (um_db t v) u) (store_registration_lem u r w)
      ∙ ap (λ d. row d u) (um_db-with_um_db t w _)
      ∙ set_admin_webauthn-row t laws hashing u (b64.encode r.credential_id)
          (b64.encode r.credential_public_key) r.sign_count (um_db t w)

  register_with_lem :
      (verify : Credential → Text → Text → Text → Outcome Registration)
      (parse : Text → Outcome Credential) (body u : Text) (cred : Credential) (w : World t)
      (r : Registration)
      → parse body ≡ ok cred
      → verify cred
          (expected_challenge t hashing wa b64 env site w)
          (rp_id_of site)
          (origin_of site)
        ≡ ok r
      → register_with t hashing wa b64 env site (some verify) (some parse) body u w
        ≡ store_registration t hashing wa b64 env site u r w
  unfolding register_with
  register_with_lem verify parse body u cred w r p a = rw (p, a) refl

  register_verify_lem :
      (body : Text) (w : World t) (r : Registration)
      → IsRegistered body w r
      → register_verify t hashing wa b64 env site body w
        ≡ store_registration t hashing wa b64 env site (default_username env) r w
  unfolding register_verify
  register_verify_lem body w r q =
      let (run, set) =
        as_user-some w.session.admin_user (default_username env)
          (register_with t hashing wa b64 env site wa.verify_registration wa.registration_credential
            body)
          w q.is_user in
      guarded-set (λ w. w.session) env
        (do
          w ← get_state
          as_user t hashing wa b64 env site w.session.admin_user (
              register_with t hashing wa b64 env site wa.verify_registration
                wa.registration_credential body))
        w set
      ∙ run
      ∙ ap₂ (λ f p. register_with t hashing wa b64 env site f p body (default_username env) w)
          q.has_verify q.has_parse
      ∙ register_with_lem q.verify q.parse body (default_username env) q.cred w r q.parses q.accepts

  registered-key :
      (r : Registration) (old : Option Admin)
      → (registered r old).webauthn_public_key ≡ some (b64.encode r.credential_public_key)
  registered-key r old = ground arith

  registered-count :
      (r : Registration) (old : Option Admin)
      → sign_count_of (some (registered r old)) ≡ r.sign_count
  registered-count r old = ground arith

  set_text-some : (s : Text) → is_empty s ≡ false → set_text (some s) ≡ some s
  set_text-some s e = ground arith

  -- After a registration of the default user that was accepted, `login_verify` lets the package
  -- check an assertion that it can parse with just the public key and the counter that were
  -- registered, and its verdict decides, for any session and whatever was stored before. Base64 is
  -- to decode what it encodes, and the key is not empty, since a row with an empty one counts as
  -- having none.
  pub login_verify-register_verify :
      IsBase64 b64
      → (body : Text) (w : World t) (r : Registration) → IsRegistered body w r
      → is_empty r.credential_public_key ≡ false
      → (verify : Credential → Text → Text → Text → Text → ℤ → Outcome ℤ)
        (parse : Text → Outcome Credential) (answer : Text) (cred : Credential) (v : World t)
      → wa.verify_authentication ≡ some verify
      → wa.authentication_credential ≡ some parse
      → parse answer ≡ ok cred
      → um_db t v ≡ um_db t (register_verify t hashing wa b64 env site body w).1
      → Decided t laws env v
          (registered r (row (um_db t w) (default_username env)))
          (verify cred
            (expected_challenge t hashing wa b64 env site v)
            (rp_id_of site)
            (origin_of site)
            r.credential_public_key
            r.sign_count)
          (verify_login t laws hashing wa b64 env site answer v)
  login_verify-register_verify code body w r q full verify parse answer cred v hv hp p same =
      let old = row (um_db t w) (default_username env) in
      let a = registered r old in
      let pk = r.credential_public_key in
      let chal = expected_challenge t hashing wa b64 env site v in
      let is_row =
        ap (λ d. row d (default_username env))
          (same ∙ ap (λ x. um_db t x.1) (register_verify_lem body w r q))
        ∙ store_registration-row (default_username env) r w in
      subst
        (Decided t laws env v a (verify cred chal (rp_id_of site) (origin_of site) pk r.sign_count))
        (sym (
          login_verify_lem t laws hashing wa b64 env site verify answer cred (b64.encode pk) a v
            (record {
              parse = parse;
              has_verify = hv;
              has_parse = hp;
              parses = p;
              has_row = is_row;
              has_key =
                  ap set_text (registered-key r old)
                  ∙ set_text-some (b64.encode pk) (code.is_empty-encode pk ∙ full);
            })
          ∙ ap₂
              (λ k n.
                checked t laws hashing wa b64 env site
                  (verify cred chal (rp_id_of site) (origin_of site) k n) v)
              (ap or_empty (code.decode_encode pk)) (registered-count r old)))
        (checked-Decided t laws hashing wa b64 env site _ v a is_row)
