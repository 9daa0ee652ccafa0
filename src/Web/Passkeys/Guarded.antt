-- ===== src/Web/Passkeys/Guarded.antt =====
-- The two guarded routes of the passkeys, for a client that is not logged in.
use postfixblocker.Prelude.{◌≡◌, refl}
use postfixblocker.Text.{Text}
use postfixblocker.Db.Table.{Table}
use postfixblocker.Db.Admins.{Admin, Hashing}
use postfixblocker.Web.Auth.{Env, World}
use postfixblocker.Web.Auth.Guard.{IsRefused, refusal}
use postfixblocker.Web.Passkeys.{WebAuthn, Base64, Site, register_challenge, register_verify}

module _ (t : Table Admin) (hashing : Hashing) (wa : WebAuthn) (b64 : Base64) (env : Env)
    (site : Site) (w : World t) (h : IsRefused env w.session) where
  pub register_challenge-refused : register_challenge t hashing wa b64 env site w ≡ (refusal, w)
  unfolding register_challenge
  register_challenge-refused = rw h refl

  pub register_verify-refused :
      (body : Text) → register_verify t hashing wa b64 env site body w ≡ (refusal, w)
  unfolding register_verify
  register_verify-refused body = rw h refl
