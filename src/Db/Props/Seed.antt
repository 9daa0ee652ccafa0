-- ===== src/Db/Props/Seed.antt =====
-- What the seeding of the default properties does to the table.
use postfixblocker.Prelude.{
  ◌≡◌, refl, ap, ◌∙◌, Bool, true, false, Option, none, some, List, [], ◌∷◌, if◌then◌else◌,
  Option-cases, Bool-cases, inl, inr,
}
use postfixblocker.Text.{Text, ◌==◌, ==_iff}
use postfixblocker.Exec.{ok, Exec}
use postfixblocker.Db.Table.{Table, IsTable, row_count, lookup}
use postfixblocker.Db.Props.{
  Driver, default_prop_values, probe_exists, run_insert_attempts, seed_one, seed_loop,
  seed_default_props,
}

-- What is there, else the second.
abbrev pub first_of : {A : Type 0} → Option A → Option A → Option A
first_of (some a) b = some a
first_of none b = b

first_of-none : {A : Type 0} (o : Option A) → o ≡ first_of o none
first_of-none none = refl
first_of-none (some a) = refl

module _ (t : Table (Option Text)) (laws : IsTable t) (d : Driver t) (is_db2 : Bool)
    (count_lem : (k : Text) (s : t.Db)
      → Driver.count d k s ≡ (ok (row_count (IsTable.row laws s k)), s)) where
  open t use {Db, insert}
  open laws use {row, insert_ok, insert_row}

  abbrev is_there : Option (Option Text) → Bool
  is_there none = false
  is_there (some r) = true

  probe_exists_lem :
      (k : Text) (s : Db) → probe_exists t d is_db2 k s ≡ (ok (is_there (row s k)), s)
  unfolding probe_exists
  probe_exists_lem k s =
      rw count_lem (elim (Option-cases (row s k)) [ inl e ↦ rw e | inr (r, e) ↦ rw e ])

  -- The first attempt is enough.
  attempts_lem :
      (k : Text) (v : Option Text) (rest : List (Exec Db (Unit {0}))) (s : Db)
      → row s k ≡ none
      → run_insert_attempts t (insert k v ∷ rest) s ≡ (ok true, (insert k v s).1)
  unfolding run_insert_attempts
  attempts_lem k v rest s e = rw (insert_ok k v s e)

  seed_one-some :
      (k : Text) (v : Option Text) (s : Db) {r : Option Text}
      → row s k ≡ some r
      → seed_one t d is_db2 k v s ≡ (ok false, s)
  unfolding seed_one
  seed_one-some k v s e = rw (probe_exists_lem, e)

  seed_one-none :
      (k : Text) (v : Option Text) (s : Db)
      → row s k ≡ none
      → seed_one t d is_db2 k v s ≡ (ok true, (insert k v s).1)
  unfolding seed_one
  seed_one-none k v s e = rw (probe_exists_lem, e) (attempts_lem k v _ s e)

  -- The first default of a key that has a row is not used.
  kept :
      (k j : Text) (v : Option Text) (s : Db) (rest : Option (Option Text)) {r : Option Text}
      → row s k ≡ some r
      → first_of (row s j) rest ≡ first_of (row s j) (if k == j then some v else rest)
  kept k j v s rest e = elim (Bool-cases (k == j)) [
    | inl same ↦ rw (← (==_iff k j).0 same, e)
    | inr apart ↦ rw apart
  ]

  added :
      (k j : Text) (v : Option Text) (s : Db) (rest : Option (Option Text))
      → row s k ≡ none
      → first_of (if k == j then some v else row s j) rest
        ≡ first_of (row s j) (if k == j then some v else rest)
  added k j v s rest e = elim (Bool-cases (k == j)) [
    | inl same ↦ rw (same, ← (==_iff k j).0 same, e)
    | inr apart ↦ rw apart
  ]

  abbrev pub Seeded : List (Text × Option Text) → Db → Type 0
  Seeded defs s =
      (l : List Text) × ((seed_loop t d is_db2 defs s).0 ≡ ok l)
      × ((j : Text) → row (seed_loop t d is_db2 defs s).1 j ≡ first_of (row s j) (lookup defs j))

  seed_loop_some :
      (k : Text) (v : Option Text) (defs : List (Text × Option Text)) (s : Db) {r : Option Text}
      → row s k ≡ some r
      → Seeded defs s
      → Seeded ((k, v) ∷ defs) s
  unfolding seed_loop lookup
  seed_loop_some k v defs s e (l, done, rows) = (
    l,
    rw (seed_one-some k v s e, done),
    λ j. rw (seed_one-some k v s e, done) (rows j ∙ kept k j v s _ e),
  )

  seed_loop_none :
      (k : Text) (v : Option Text) (defs : List (Text × Option Text)) (s : Db)
      → row s k ≡ none
      → Seeded defs (insert k v s).1
      → Seeded ((k, v) ∷ defs) s
  unfolding seed_loop lookup
  seed_loop_none k v defs s e (l, done, rows) = (
    k ∷ l,
    rw (seed_one-none k v s e, done),
    λ j.
        rw (seed_one-none k v s e, done)
          (rows j
            ∙ ap (λ o. first_of o (lookup defs j)) (insert_row k v s j e)
            ∙ added k j v s _ e),
  )

  seed_loop-Seeded : (defs : List (Text × Option Text)) (s : Db) → Seeded defs s
  seed_loop-Seeded [] s =
      ([], unfold seed_loop in refl, λ j. unfold seed_loop lookup in first_of-none (row s j))
  seed_loop-Seeded ((k, v) ∷ defs) s = elim (Option-cases (row s k)) [
    | inr (r, e) ↦ seed_loop_some k v defs s e (seed_loop-Seeded defs s)
    | inl e ↦ seed_loop_none k v defs s e (seed_loop-Seeded defs (insert k v s).1)
  ]

  -- On a database that answers, seeding returns, every key that had a row keeps its value, and every
  -- other key has its value of DEFAULT_PROP_VALUES, if it has one there.
  pub seed_default_props-row :
      (s : Db)
      → (l : List Text) × ((seed_default_props t d is_db2 s).0 ≡ ok l)
        × ((j : Text)
            → row (seed_default_props t d is_db2 s).1 j
              ≡ first_of (row s j) (lookup default_prop_values j))
  unfolding seed_default_props
  seed_default_props-row s =
      let (l, done, rows) = seed_loop-Seeded default_prop_values s in
      (l, rw done, λ j. rw done (rows j))
