-- ===== src/Db/Migrations/TestMode.antt =====
-- The column `test_mode` after `ensure_test_mode`.
use postfixblocker.Prelude.{◌≡◌, refl, ◌∙◌, ◌⊎◌, inl, inr, true, Bool-cases}
use postfixblocker.Exec.{Exn, Outcome, ok, raised}
use postfixblocker.Db.Migrations.{
  Schema, add_boolean, add_smallint, set_one, set_true, names_test_mode, add_column,
  normalize_nulls, ensure_test_mode,
}

-- What is asked of the inspector: each of the two statements that add the column makes it listed
-- where it succeeds, and the two that set its values leave the columns alone.
pub record IsSchema {Db : Type 0} (schema : Schema Db) : Type 0 where
  pub add_boolean_lem :
      (d : Db)
      → (schema.execute add_boolean d).0 ≡ ok tt
      → names_test_mode schema (schema.columns (schema.execute add_boolean d).1) ≡ true
  pub add_smallint_lem :
      (d : Db)
      → (schema.execute add_smallint d).0 ≡ ok tt
      → names_test_mode schema (schema.columns (schema.execute add_smallint d).1) ≡ true
  pub set_one_lem : (d : Db) → schema.columns (schema.execute set_one d).1 ≡ schema.columns d
  pub set_true_lem : (d : Db) → schema.columns (schema.execute set_true d).1 ≡ schema.columns d

-- The outcome of a statement with no result.
abbrev pub Unit-outcome : Outcome (Unit {0}) → Type 0
Unit-outcome r = (r ≡ ok tt) ⊎ ((e : Exn) × (r ≡ raised e))

pub unit_outcome : (r : Outcome (Unit {0})) → Unit-outcome r
unit_outcome (ok a) = inl refl
unit_outcome (raised e) = inr (e, refl)

module _ {Db : Type 0} (schema : Schema Db) (laws : IsSchema schema) where
  open laws use {add_boolean_lem, add_smallint_lem, set_one_lem, set_true_lem}

  -- The state once the first statement failed.
  abbrev pub retried : Db → Db
  retried d = (schema.execute add_boolean d).1

  normalize_nulls-ok : (d : Db) → (normalize_nulls schema d).0 ≡ ok tt
  unfolding normalize_nulls
  normalize_nulls-ok d = elim (unit_outcome (schema.execute set_one d).0) [
    | inl e ↦ rw e refl
    | inr (x, e) ↦
        rw e (elim (unit_outcome (schema.execute set_true (schema.execute set_one d).1).0) [
          | inl f ↦ rw f refl
          | inr (y, f) ↦ rw f refl
        ])
  ]

  columns-normalize_nulls :
      (d : Db) → schema.columns (normalize_nulls schema d).1 ≡ schema.columns d
  unfolding normalize_nulls
  columns-normalize_nulls d = elim (unit_outcome (schema.execute set_one d).0) [
    | inl e ↦ rw e (set_one_lem d)
    | inr (x, e) ↦
        rw e (elim (unit_outcome (schema.execute set_true (schema.execute set_one d).1).0) [
          | inl f ↦ rw f (set_true_lem (schema.execute set_one d).1 ∙ set_one_lem d)
          | inr (y, f) ↦ rw f (set_true_lem (schema.execute set_one d).1 ∙ set_one_lem d)
        ])
  ]

  -- Either the column is added, or both statements fail.
  add_column-lists :
      (d : Db)
      → (((add_column schema d).0 ≡ ok tt)
          × (names_test_mode schema (schema.columns (add_column schema d).1) ≡ true))
        ⊎ ((e : Exn) × ((add_column schema d).0 ≡ raised e)
            × ((schema.execute add_smallint (retried d)).0 ≡ raised e))
  unfolding add_column
  add_column-lists d = elim (unit_outcome (schema.execute add_boolean d).0) [
    | inl e ↦ rw e (inl (refl, add_boolean_lem d e))
    | inr (x, e) ↦ rw e (elim (unit_outcome (schema.execute add_smallint (retried d)).0) [
      | inl f ↦ inl (f, add_smallint_lem (retried d) f)
      | inr (y, f) ↦ inr (y, f, f)
    ])
  ]

  -- What `ensure_test_mode` leaves.
  pub record IsMigrated (d : Db) : Type 0 where
    pub returned : (ensure_test_mode schema d).0 ≡ ok tt
    pub listed : names_test_mode schema (schema.columns (ensure_test_mode schema d).1) ≡ true

  pub record IsRefused (d : Db) : Type 0 where
    pub error : Exn
    pub passed_on : (ensure_test_mode schema d).0 ≡ raised error
    pub from_smallint : (schema.execute add_smallint (retried d)).0 ≡ raised error
    pub rolled_back : (ensure_test_mode schema d).1 ≡ d

  -- `ensure_test_mode` returns, and the inspector then lists `test_mode`; or the statement with
  -- SMALLINT fails behind that with BOOLEAN, its exception is passed on, and nothing has changed.
  pub ensure_test_mode-IsMigrated : (d : Db) → IsMigrated d ⊎ IsRefused d
  unfolding ensure_test_mode
  ensure_test_mode-IsMigrated d = elim (Bool-cases (names_test_mode schema (schema.columns d))) [
    | inl e ↦ inl (record { returned = rw e refl; listed = rw e e })
    | inr e ↦ elim (add_column-lists d) [
      | inl (f, g) ↦ inl (record {
        returned = rw (e, f, normalize_nulls-ok (add_column schema d).1) refl;
        listed =
            rw
              (
                e,
                f,
                normalize_nulls-ok (add_column schema d).1,
                columns-normalize_nulls (add_column schema d).1,
              )
              g;
      })
      | inr (x, f, g) ↦ inr (record {
        error = x;
        passed_on = rw (e, f) refl;
        from_smallint = g;
        rolled_back = rw (e, f) refl;
      })
    ]
  ]
