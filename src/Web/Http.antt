-- ===== src/Web/Http.antt =====
-- What a Flask handler returns, and what becomes of an exception.
use postfixblocker.Prelude.{ℕ}
use postfixblocker.Text.{Text, codes}
use postfixblocker.Exec.{Kind, http, Exn, Outcome, ok, raised}
use postfixblocker.Web.Json.{Json, str, obj, field, end}

pub record Response : Type 0 where
  pub status : ℕ
  pub body : Json

-- `jsonify({'error': message}), status`.
abbrev pub error_response : ℕ → Text → Response
error_response status message = record {
  status = status;
  body = obj (field (codes "error") (str message) end);
}

-- `abort(status, message)`.
abbrev pub abort : ℕ → Text → Exn
abort status message = record { kind = http status; message = message }

abbrev pub status_of : Kind → ℕ
status_of (http n) = n
status_of _ = 500

-- The status that the client sees.
abbrev pub status : Outcome Response → ℕ
status (ok r) = r.status
status (raised e) = status_of e.kind
