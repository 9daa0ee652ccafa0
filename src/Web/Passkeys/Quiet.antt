-- ===== src/Web/Passkeys/Quiet.antt =====
-- The two open routes of the passkeys: which replies log a client in.
use postfixblocker.Prelude.{refl, Option, none, some}
use postfixblocker.Text.{Text, codes}
use postfixblocker.Text.Decimal.{ℤ}
use postfixblocker.Exec.{Outcome, pure, ◌>>=◌}
use postfixblocker.Db.Table.{Table, IsTable}
use postfixblocker.Db.Admins.{Admin, Hashing, get_admin_by_username, update_admin_sign_count}
use postfixblocker.Web.Http.{Response, error_response}
use postfixblocker.Web.Auth.{Env, default_username, on_um_db}
use postfixblocker.Web.Auth.Quiet.{
  IsQuiet, IsCareful, on_um_db-IsQuiet, lift-IsQuiet, get_state-IsQuiet, bind-IsQuiet,
  bind-IsCareful, reply-IsCareful, logged_in-IsCareful,
}
use postfixblocker.Web.Passkeys.{
  WebAuthn, Base64, Site, rp_id_of, origin_of, unavailable, or_empty, credential_of, public_key_of,
  sign_count_of, expected_challenge, offer, login_options, login_challenge, finish_verify,
  check_assertion, verify_with, login_verify,
}

module _ (t : Table Admin) (hashing : Hashing) (wa : WebAuthn) (b64 : Base64) (env : Env)
    (site : Site) where
  open wa use {Options, Credential}

  reply-IsQuiet : (r : Response) → IsQuiet t (pure r)
  reply-IsQuiet r = record { leaves = λ w. refl }

  offer-IsQuiet : (options : Options) → IsQuiet t (offer t hashing wa b64 env site options)
  unfolding offer
  offer-IsQuiet options = record { leaves = λ w. refl }

  options-IsQuiet :
      (generate : Text → Text → Outcome Options) (cred_id : Option Text)
      → IsQuiet t (login_options t hashing wa b64 env site (some generate) cred_id)
  unfolding login_options
  options-IsQuiet generate none = reply-IsQuiet (error_response 404 (codes "not found"))
  options-IsQuiet generate (some cred_id) =
      bind-IsQuiet t (lift-IsQuiet t (generate (rp_id_of site) (or_empty (b64.decode cred_id))))
        offer-IsQuiet

  -- A challenge leaves the user of the session.
  pub login_challenge-IsQuiet : IsQuiet t (login_challenge t hashing wa b64 env site)
  unfolding login_challenge
  login_challenge-IsQuiet =
      elim wa.authentication_options
        as (λ o. IsQuiet t (elim o [
          | none ↦ pure unavailable
          | some generate ↦ do
            admin ← on_um_db t (get_admin_by_username t hashing (default_username env))
            login_options t hashing wa b64 env site (some generate) (credential_of admin)
        ])) [
          | none ↦ reply-IsQuiet unavailable
          | some generate ↦
              bind-IsQuiet t
                (on_um_db-IsQuiet t (get_admin_by_username t hashing (default_username env)))
                (λ admin. options-IsQuiet generate (credential_of admin))
        ]

  module _ (laws : IsTable t) where
    finish_verify-IsCareful :
        (u : Text) (n : ℤ) → IsCareful t (finish_verify t hashing wa b64 env site u n)
    unfolding finish_verify
    finish_verify-IsCareful u n =
        bind-IsCareful t (on_um_db-IsQuiet t (update_admin_sign_count t hashing u n))
          (λ _. logged_in-IsCareful t hashing laws u)

    check_assertion-IsCareful :
        (verify : Credential → Text → Text → Text → Text → ℤ → Outcome ℤ)
        (parse : Text → Outcome Credential) (body : Text) (admin : Option Admin) (key : Option Text)
        → IsCareful t (check_assertion t hashing wa b64 env site verify parse body admin key)
    unfolding check_assertion
    check_assertion-IsCareful verify parse body admin none =
        reply-IsCareful t (error_response 404 (codes "not found"))
    check_assertion-IsCareful verify parse body admin (some key) =
        bind-IsCareful t (lift-IsQuiet t (parse body)) (λ cred.
          bind-IsCareful t (get_state-IsQuiet t) (λ w.
            bind-IsCareful t
              (lift-IsQuiet t (
                verify cred (expected_challenge t hashing wa b64 env site w) (rp_id_of site)
                  (origin_of site) (or_empty (b64.decode key)) (sign_count_of admin)))
              (λ n. finish_verify-IsCareful (default_username env) n)))

    verify_with-IsCareful :
        (verify : Option (Credential → Text → Text → Text → Text → ℤ → Outcome ℤ))
        (parse : Option (Text → Outcome Credential)) (body : Text)
        → IsCareful t (verify_with t hashing wa b64 env site verify parse body)
    unfolding verify_with
    verify_with-IsCareful none parse body = reply-IsCareful t unavailable
    verify_with-IsCareful (some verify) none body = reply-IsCareful t unavailable
    verify_with-IsCareful (some verify) (some parse) body =
        bind-IsCareful t
          (on_um_db-IsQuiet t (get_admin_by_username t hashing (default_username env)))
          (λ admin. check_assertion-IsCareful verify parse body admin (public_key_of admin))

    -- An assertion that is not answered by 200 leaves the user of the session.
    pub login_verify-IsCareful :
        (body : Text) → IsCareful t (login_verify t hashing wa b64 env site body)
    unfolding login_verify
    login_verify-IsCareful body =
        verify_with-IsCareful wa.verify_authentication wa.authentication_credential body
