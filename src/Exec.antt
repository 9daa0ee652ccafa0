-- ===== src/Exec.antt =====
-- Python code that changes a state and may raise. What was done before an exception stays done, so
-- the state comes back beside the exception too.
use postfixblocker.Prelude.{ℕ, ◌≡◌, refl, ◌⊎◌, inl, inr, Option, none, some}
use postfixblocker.Text.{Text}

-- The exceptions that the program tells apart: by class, and by the text of `str(exc)`.
pub data Kind : Type 0 where
  value_error attribute_error type_error file_not_found operational other : Kind
  http : ℕ → Kind

pub record Exn : Type 0 where
  pub kind : Kind
  pub message : Text

pub data Outcome (A : Type 0) : Type 0 where
  ok : A → Outcome A
  raised : Exn → Outcome A

abbrev pub Exec : Type 0 → Type 0 → Type 0
Exec S A = S → Outcome A × S

abbrev pub pure : {S A : Type 0} → A → Exec S A
pure a s = (ok a, s)

abbrev pub raise : {S A : Type 0} → Exn → Exec S A
raise e s = (raised e, s)

-- A result that changes nothing.
abbrev pub lift : {S A : Type 0} → Outcome A → Exec S A
lift r s = (r, s)

abbrev pub get_state : {S : Type 0} → Exec S S
get_state s = (ok s, s)

abbrev pub put_state : {S : Type 0} → S → Exec S (Unit {0})
put_state t s = (ok tt, t)

abbrev pub continue : {S A B : Type 0} → (A → Exec S B) → Outcome A × S → Outcome B × S
continue f (ok a, s) = f a s
continue f (raised e, s) = (raised e, s)

infixl 10 ◌>>=◌ ◌>>◌
abbrev pub ◌>>=◌ : {S A B : Type 0} → Exec S A → (A → Exec S B) → Exec S B
◌>>=◌ m f s = continue f (m s)

abbrev pub ◌>>◌ : {S A B : Type 0} → Exec S A → Exec S B → Exec S B
◌>>◌ m n s = continue (λ _. n) (m s)

abbrev pub handle : {S A : Type 0} → (Exn → Exec S A) → Outcome A × S → Outcome A × S
handle h (ok a, s) = (ok a, s)
handle h (raised e, s) = h e s

-- `try: m` with `except Exception as e: h e`.
abbrev pub try_except : {S A : Type 0} → Exec S A → (Exn → Exec S A) → Exec S A
try_except m h s = handle h (m s)

-- `raise` of a missing value.
abbrev pub or_raise : {S A : Type 0} → Option A → Exn → Exec S A
or_raise none e s = (raised e, s)
or_raise (some a) e s = (ok a, s)

pub Outcome-cases :
    {A : Type 0} (r : Outcome A) → ((a : A) × (r ≡ ok a)) ⊎ ((e : Exn) × (r ≡ raised e))
Outcome-cases (ok a) = inl (a, refl)
Outcome-cases (raised e) = inr (e, refl)

-- A handler that passes over every exception.
pub handle_tt :
    {S : Type 0} (x : Outcome (Unit {0}) × S) → handle {S = S} (λ e. pure tt) x ≡ (ok tt, x.1)
handle_tt (ok a, s) = refl
handle_tt (raised e, s) = refl
