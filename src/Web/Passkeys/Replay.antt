-- ===== src/Web/Passkeys/Replay.antt =====
-- That an assertion may be sent again.
use postfixblocker.Prelude.{◌≡◌, subst, ap, ◌∙◌, some, []}
use postfixblocker.Text.{Text}
use postfixblocker.Text.Decimal.{ℤ}
use postfixblocker.Exec.{Outcome, ok}
use postfixblocker.Db.Table.{Table, IsTable}
use postfixblocker.Db.Admins.{Admin, Hashing}
use postfixblocker.Db.Admins.Passkey.{with_count}
use postfixblocker.Web.Auth.{Env, World, default_username, um_db, text_or}
use postfixblocker.Web.Passkeys.{
  WebAuthn, Base64, Site, rp_id_of, origin_of, or_empty, sign_count_of, expected_challenge,
}
use postfixblocker.Web.Passkeys.Verify.{
  Decided, IsAttempt, verify_login, login_verify-Decided, after-login_verify, accepted-row,
  accepted-session,
}

module _ (t : Table Admin) (laws : IsTable t) (hashing : Hashing) (wa : WebAuthn) (b64 : Base64)
    (env : Env) (site : Site) where
  open t use {Db}
  open laws use {row}
  open wa use {Credential}

  -- The challenge of a login stays in the session: after a request to `login_verify` by a default
  -- user with a public key that was accepted with the counter n, the same request makes the package
  -- check the same assertion against the same challenge, with n for the counter, and its verdict
  -- alone decides again.
  pub login_verify-login_verify :
      (verify : Credential → Text → Text → Text → Text → ℤ → Outcome ℤ) (body : Text)
      (cred : Credential) (key : Text) (a : Admin) (w : World t) (n : ℤ)
      → IsAttempt t laws hashing wa b64 env site verify body cred key a (um_db t w)
      → verify cred
          (expected_challenge t hashing wa b64 env site w)
          (rp_id_of site)
          (origin_of site)
          (or_empty (b64.decode key))
          (sign_count_of (some a))
        ≡ ok n
      → Decided t laws env
          (verify_login t laws hashing wa b64 env site body w).1
          (with_count n a)
          (verify cred
            (expected_challenge t hashing wa b64 env site w)
            (rp_id_of site)
            (origin_of site)
            (or_empty (b64.decode key))
            n)
          (verify_login t laws hashing wa b64 env site body
            (verify_login t laws hashing wa b64 env site body w).1)
  login_verify-login_verify verify body cred key a w n q e =
      let v = (verify_login t laws hashing wa b64 env site body w).1 in
      let is_after =
        after-login_verify t laws hashing wa b64 env site verify body cred key a w n q e in
      subst
        (λ c.
          Decided t laws env v (with_count n a)
            (verify cred c (rp_id_of site) (origin_of site) (or_empty (b64.decode key)) n)
            (verify_login t laws hashing wa b64 env site body v))
        (ap (λ x. or_empty (b64.decode (text_or x.session.webauthn_current_challenge []))) is_after
          ∙ ap (λ s. or_empty (b64.decode (text_or s.webauthn_current_challenge [])))
              (accepted-session t laws hashing wa b64 env site w n))
        (login_verify-Decided t laws hashing wa b64 env site verify body cred key (with_count n a) v
          (record {
            parse = q.parse;
            has_verify = q.has_verify;
            has_parse = q.has_parse;
            parses = q.parses;
            has_row =
                ap (λ x. row (um_db t x) (default_username env)) is_after
                ∙ accepted-row t laws hashing wa b64 env site w a n q.has_row;
            has_key = q.has_key;
          }))
