-- ===== src/Web/Passkeys/Tests.antt =====
-- The theorems for a package that knows one passkey.
use postfixblocker.Prelude.{refl, false, ◌&&◌, none, some, Option, [], ◌∷◌, if◌then◌else◌}
use postfixblocker.Text.{Text, codes, ◌==◌}
use postfixblocker.Text.Decimal.{ℤ, pos}
use postfixblocker.Exec.{other, Exn, Outcome, ok, raised}
use postfixblocker.Db.Table.{Table, lookup, memory, memory-IsTable}
use postfixblocker.Db.Admins.{Admin, Hashing}
use postfixblocker.Db.Admins.Passkey.{with_count}
use postfixblocker.Web.Json.{obj, end}
use postfixblocker.Web.Auth.{Env, World, um_db}
use postfixblocker.Web.Passkeys.{Registration, WebAuthn, Base64, Site, register_verify}
use postfixblocker.Web.Passkeys.Verify.{Decided, IsBase64, verify_login, login_verify-Decided}
use postfixblocker.Web.Passkeys.Register.{registered, login_verify-register_verify}
use postfixblocker.Web.Passkeys.Replay.{login_verify-login_verify}

abbrev users : Table Admin
users = memory

abbrev hashing : Hashing
hashing = record { generate = λ p. p; check = λ h c. h == c }

abbrev admin : Text
admin = codes "admin"

abbrev env : Env
env = record { api_auth_required = some (codes "1"); admin_username = none }

abbrev site : Site
site = record {
  rp_id = none;
  origin = none;
  admin_user_id = none;
  host = some (codes "mail.test:8443");
}

abbrev made : Registration
made = record { credential_id = 5 ∷ []; credential_public_key = 9 ∷ []; sign_count = pos 0 }

abbrev refused : Exn
refused = record { kind = other; message = codes "refused" }

-- The assertion is the bytes of the key and of the challenge.
abbrev check : Text → Text → Text → Text → Text → ℤ → Outcome ℤ
check cred chal rp origin key n =
    if cred == (9 ∷ 4 ∷ []) && key == (9 ∷ []) && chal == (4 ∷ []) then ok n else raised refused

abbrev register : Text → Text → Text → Text → Outcome Registration
register cred chal rp origin = ok made

abbrev webauthn : WebAuthn
webauthn = record {
  Options = Text;
  Credential = Text;
  registration_options = none;
  authentication_options = none;
  challenge = λ o. ok o;
  options_to_json = λ o. obj end;
  registration_credential = some (λ s. ok s);
  authentication_credential = some (λ s. ok s);
  verify_registration = some register;
  verify_authentication = some check;
}

abbrev plain : Base64
plain = record { encode = λ s. s; decode = λ s. ok s }

plain-IsBase64 : IsBase64 plain
plain-IsBase64 = record { decode_encode = λ b. refl; is_empty-encode = λ b. refl }

-- An admin without a passkey.
abbrev before : Admin
before = record {
  password_hash = some (codes "secret");
  must_change_password = false;
  webauthn_credential_id = none;
  webauthn_public_key = none;
  webauthn_sign_count = none;
}

-- That admin with the passkey.
abbrev after : Admin
after = record before {
  webauthn_credential_id = some (5 ∷ []);
  webauthn_public_key = some (9 ∷ []);
  webauthn_sign_count = some (pos 0);
}

abbrev world : Option Text → Admin → World users
world user a = record {
  session = record {
    admin_user = user;
    pending_username = none;
    webauthn_current_challenge = some (4 ∷ []);
  };
  um_engine = none;
  db_engine = none;
  user_engine = (admin, a) ∷ [];
}

login_verify-Decided_example :
    Decided users memory-IsTable env (world none after) after (ok (pos 0)) (
      verify_login users memory-IsTable hashing webauthn plain env site
        (9 ∷ 4 ∷ [])
        (world none after))
unfolding ◌==◌ lookup
login_verify-Decided_example =
    login_verify-Decided users memory-IsTable hashing webauthn plain env site check (9 ∷ 4 ∷ [])
      (9 ∷ 4 ∷ []) (9 ∷ []) after (world none after)
      (record {
        parse = λ s. ok s;
        has_verify = refl;
        has_parse = refl;
        parses = refl;
        has_row = refl;
        has_key = refl;
      })

login_verify-login_verify_example :
    Decided users memory-IsTable env
      (verify_login users memory-IsTable hashing webauthn plain env site
        (9 ∷ 4 ∷ [])
        (world none after)).1
      (with_count (pos 0) after)
      (ok (pos 0))
      (verify_login users memory-IsTable hashing webauthn plain env site
        (9 ∷ 4 ∷ [])
        (verify_login users memory-IsTable hashing webauthn plain env site
          (9 ∷ 4 ∷ [])
          (world none after)).1)
unfolding ◌==◌ lookup
login_verify-login_verify_example =
    login_verify-login_verify users memory-IsTable hashing webauthn plain env site check
      (9 ∷ 4 ∷ []) (9 ∷ 4 ∷ []) (9 ∷ []) after (world none after) (pos 0)
      (record {
        parse = λ s. ok s;
        has_verify = refl;
        has_parse = refl;
        parses = refl;
        has_row = refl;
        has_key = refl;
      })
      refl

-- A later request, on the users that the registration left.
abbrev later : World users
later = record (world none before) {
  um_engine = some (
      um_db users
        (register_verify users hashing webauthn plain env site [] (world (some admin) before)).1);
}

login_verify-register_verify_example :
    Decided users memory-IsTable env later
      (registered users memory-IsTable hashing webauthn plain env site made (some before))
      (ok (pos 0))
      (verify_login users memory-IsTable hashing webauthn plain env site (9 ∷ 4 ∷ []) later)
unfolding ◌==◌ lookup
login_verify-register_verify_example =
    login_verify-register_verify users memory-IsTable hashing webauthn plain env site plain-IsBase64
      [] (world (some admin) before) made
      (record {
        verify = register;
        parse = λ s. ok s;
        cred = [];
        has_verify = refl;
        has_parse = refl;
        parses = refl;
        is_user = refl;
        accepts = refl;
      })
      refl check (λ s. ok s) (9 ∷ 4 ∷ []) (9 ∷ 4 ∷ []) later refl refl refl refl
