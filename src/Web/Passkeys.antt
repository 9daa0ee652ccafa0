-- ===== src/Web/Passkeys.antt =====
-- The passkey routes of postfix_blocker/web/routes_auth.py. The package `webauthn` and the module
-- `base64` are parameters; bytes are lists of their values, as texts are of code points.
pub mod Verify
pub mod Register
pub mod Replay
pub mod Quiet
pub mod Guarded
mod Tests
use postfixblocker.Prelude.{
  ℕ, ◌≡◌, Bool, true, false, ◌||◌, Option, none, some, List, [], ◌∷◌, ◌++◌, eqb, if◌then◌else◌,
  or_else,
}
use postfixblocker.Text.{Text, codes}
use postfixblocker.Text.Decimal.{ℤ, pos}
use postfixblocker.Exec.{Outcome, ok, raised, Exec, pure, lift, get_state, continue, ◌>>=◌, ◌>>◌}
use postfixblocker.Db.Table.{Table}
use postfixblocker.Db.Admins.{
  Admin, Hashing, get_admin_by_username, set_admin_webauthn, update_admin_sign_count,
}
use postfixblocker.Web.Json.{Json}
use postfixblocker.Web.Http.{Response, error_response}
use postfixblocker.Web.Auth.{
  Session, Env, World, guarded, default_username, is_unset, text_or, has_webauthn, on_um_db,
  session_info, set_logged_in,
}

-- `verify_registration_response`: the credential id, its public key and its counter.
pub record Registration : Type 0 where
  pub credential_id : Text
  pub credential_public_key : Text
  pub sign_count : ℤ

-- The package. A function that is missing is `none`; the structures that the routes test for and pass
-- on are behind the functions. The arguments of the two checks are the credential, the challenge, the
-- relying party and the origin, and then the public key and the stored counter.
pub record WebAuthn : Type 1 where
  pub Options : Type 0
  pub Credential : Type 0
  pub registration_options : Option (Text → Text → Text → Text → Outcome Options)
  pub authentication_options : Option (Text → Text → Outcome Options)
  pub challenge : Options → Outcome Text
  pub options_to_json : Options → Json
  pub registration_credential : Option (Text → Outcome Credential)
  pub authentication_credential : Option (Text → Outcome Credential)
  pub verify_registration : Option (Credential → Text → Text → Text → Outcome Registration)
  pub verify_authentication : Option (Credential → Text → Text → Text → Text → ℤ → Outcome ℤ)

-- `urlsafe_b64encode` with `decode('ascii')`, and `urlsafe_b64decode` of `encode('ascii')`.
pub record Base64 : Type 0 where
  pub encode : Text → Text
  pub decode : Text → Outcome Text

-- RP_ID, ORIGIN and ADMIN_USER_ID, and the request's Host header.
pub record Site : Type 0 where
  pub rp_id : Option Text
  pub origin : Option Text
  pub admin_user_id : Option Text
  pub host : Option Text

-- `host.split(':', 1)[0]`.
abbrev pub before_colon : Text → Text
before_colon [] = []
before_colon (c ∷ s) = let rest = before_colon s in if eqb c 58 then [] else c ∷ rest

-- `_rp_id`.
pub rp_id_of : Site → Text
rp_id_of site = text_or site.rp_id (before_colon (or_else site.host []))

-- `_origin`.
pub origin_of : Site → Text
origin_of site = text_or site.origin (codes "https://" ++ or_else site.host (codes "None"))

abbrev pub unavailable : Response
unavailable = error_response 503 (codes "webauthn_unavailable")

abbrev pub unauthorized : Response
unauthorized = error_response 401 (codes "unauthorized")

abbrev pub or_empty : Outcome Text → Text
or_empty (ok s) = s
or_empty (raised e) = []

-- `admin.get(key)` of a row that may be missing, where it is set and not empty.
abbrev pub set_text : Option Text → Option Text
set_text none = none
set_text (some []) = none
set_text (some (c ∷ s)) = some (c ∷ s)

abbrev pub credential_of : Option Admin → Option Text
credential_of none = none
credential_of (some a) = set_text a.webauthn_credential_id

abbrev pub public_key_of : Option Admin → Option Text
public_key_of none = none
public_key_of (some a) = set_text a.webauthn_public_key

abbrev pub sign_count_of : Option Admin → ℤ
sign_count_of none = pos 0
sign_count_of (some a) = or_else a.webauthn_sign_count (pos 0)

module _ (t : Table Admin) (hashing : Hashing) (wa : WebAuthn) (b64 : Base64) (env : Env)
    (site : Site) where
  open wa use {Options, Credential}

  -- The body of a route for the user of the session.
  abbrev pub as_user : Option Text → (Text → Exec (World t) Response) → Exec (World t) Response
  as_user none fn = pure unauthorized
  as_user (some []) fn = pure unauthorized
  as_user (some (c ∷ u)) fn = fn (c ∷ u)

  -- The challenge of the session, as bytes.
  abbrev pub expected_challenge : World t → Text
  expected_challenge w = or_empty (b64.decode (text_or w.session.webauthn_current_challenge []))

  abbrev encoded : Outcome Text → Text
  encoded (ok bytes) = b64.encode bytes
  encoded (raised e) = []

  abbrev set_challenge : Text → Exec (World t) (Unit {0})
  set_challenge chal w =
      (ok tt, record w { session = record w.session { webauthn_current_challenge = some chal } })

  -- The end of the two challenge routes.
  pub offer : Options → Exec (World t) Response
  offer options = do
    set_challenge (encoded (wa.challenge options))
    pure (record { status = 200; body = wa.options_to_json options })

  register_options :
      Option (Text → Text → Text → Text → Outcome Options) → Text → Exec (World t) Response
  register_options none username = pure unavailable
  register_options (some generate) username = do
    options ← lift (
        generate (rp_id_of site) (codes "Postfix Blocker")
          (text_or site.admin_user_id (codes "admin-user-1")) username)
    offer options

  pub register_challenge : Exec (World t) Response
  register_challenge =
      guarded (λ w. w.session) env
        (do w ← get_state; as_user w.session.admin_user (register_options wa.registration_options))

  -- The verified credential is stored for the user.
  pub store_registration : Text → Registration → Exec (World t) Response
  store_registration username r = do
    on_um_db t (
        set_admin_webauthn t hashing username (b64.encode r.credential_id)
          (b64.encode r.credential_public_key) r.sign_count)
    admin ← on_um_db t (get_admin_by_username t hashing username)
    pure (session_info true username false (some (has_webauthn admin)))

  pub register_with :
      Option (Credential → Text → Text → Text → Outcome Registration)
      → Option (Text → Outcome Credential)
      → Text
      → Text
      → Exec (World t) Response
  register_with none parse body username = pure unavailable
  register_with (some verify) none body username = pure unavailable
  register_with (some verify) (some parse) body username = do
    cred ← lift (parse body)
    w ← get_state
    r ← lift (verify cred (expected_challenge w) (rp_id_of site) (origin_of site))
    store_registration username r

  pub register_verify : Text → Exec (World t) Response
  register_verify body =
      guarded (λ w. w.session) env
        (do
          w ← get_state
          as_user w.session.admin_user
              (register_with wa.verify_registration wa.registration_credential body))

  login_options : Option (Text → Text → Outcome Options) → Option Text → Exec (World t) Response
  login_options none cred_id = pure unavailable
  login_options (some generate) none = pure (error_response 404 (codes "not found"))
  login_options (some generate) (some cred_id) = do
    options ← lift (generate (rp_id_of site) (or_empty (b64.decode cred_id)))
    offer options

  -- Whether the function is there is tested before the database is asked.
  pub login_challenge : Exec (World t) Response
  login_challenge = elim wa.authentication_options [
    | none ↦ pure unavailable
    | some generate ↦ do
      admin ← on_um_db t (get_admin_by_username t hashing (default_username env))
      login_options (some generate) (credential_of admin)
  ]

  -- The end of `login_verify`: the new counter is stored, and the client is logged in.
  pub finish_verify : Text → ℤ → Exec (World t) Response
  finish_verify username new_sign_count = do
    on_um_db t (update_admin_sign_count t hashing username new_sign_count)
    set_logged_in t username
    admin ← on_um_db t (get_admin_by_username t hashing username)
    pure (session_info true username false (some (has_webauthn admin)))

  pub check_assertion :
      (Credential → Text → Text → Text → Text → ℤ → Outcome ℤ)
      → (Text → Outcome Credential)
      → Text
      → Option Admin
      → Option Text
      → Exec (World t) Response
  check_assertion verify parse body admin none = pure (error_response 404 (codes "not found"))
  check_assertion verify parse body admin (some key) = do
    cred ← lift (parse body)
    w ← get_state
    n ← lift (
        verify cred (expected_challenge w) (rp_id_of site) (origin_of site)
          (or_empty (b64.decode key)) (sign_count_of admin))
    finish_verify (default_username env) n

  pub verify_with :
      Option (Credential → Text → Text → Text → Text → ℤ → Outcome ℤ)
      → Option (Text → Outcome Credential)
      → Text
      → Exec (World t) Response
  verify_with none parse body = pure unavailable
  verify_with (some verify) none body = pure unavailable
  verify_with (some verify) (some parse) body = do
    admin ← on_um_db t (get_admin_by_username t hashing (default_username env))
    check_assertion verify parse body admin (public_key_of admin)

  pub login_verify : Text → Exec (World t) Response
  login_verify body = verify_with wa.verify_authentication wa.authentication_credential body
