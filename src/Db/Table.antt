-- ===== src/Db/Table.antt =====
-- What the program uses of SQLAlchemy and a database for a table with a text key (`um_user` by
-- username, `cris_props` by key): an interface of operations, the laws of a database that answers,
-- and an association list that has them.
use postfixblocker.Prelude.{
  ℕ, zero, suc, ◌≡◌, ◌∙◌, refl, Option, none, some, List, [], ◌∷◌, arith, if◌then◌else◌,
  Option-cases, inl, inr,
}
use postfixblocker.Text.{Text, codes, ◌==◌, ==_iff, ==_self}
use postfixblocker.Exec.{other, Outcome, ok, raised, Exec, ◌>>=◌}

-- The operations on one table. `Db` is the state of the database; an operation may raise.
pub record Table (Row : Type 0) : Type 1 where
  pub Db : Type 0
  -- `select … where key = k`, the first row.
  pub select : Text → Exec Db (Option Row)
  -- `update … where key = k`; the result is `rowcount`.
  pub update : Text → (Row → Row) → Exec Db ℕ
  -- `insert`.
  pub insert : Text → Row → Exec Db (Unit {0})

abbrev pub row_count {ℓ} : {A : Type ℓ} → Option A → ℕ
row_count none = 0
row_count (some a) = 1

abbrev pub map_row : {Row : Type 0} → (Row → Row) → Option Row → Option Row
map_row f none = none
map_row f (some r) = some (f r)

-- A database that answers: the key is unique, and no operation fails but a second insert.
pub record IsTable {Row : Type 0} (t : Table Row) : Type 0 where
  pub row : t.Db → Text → Option Row
  pub select_lem : (k : Text) (s : t.Db) → t.select k s ≡ (ok (row s k), s)
  pub update_ok :
      (k : Text) (f : Row → Row) (s : t.Db) → (t.update k f s).0 ≡ ok (row_count (row s k))
  pub update_row :
      (k : Text) (f : Row → Row) (s : t.Db) (j : Text)
      → row (t.update k f s).1 j ≡ (if k == j then map_row f (row s k) else row s j)
  pub insert_ok : (k : Text) (r : Row) (s : t.Db) → row s k ≡ none → (t.insert k r s).0 ≡ ok tt
  pub insert_row :
      (k : Text) (r : Row) (s : t.Db) (j : Text)
      → row s k ≡ none
      → row (t.insert k r s).1 j ≡ (if k == j then some r else row s j)

-- `with engine.begin()`: an exception rolls the block back.
abbrev rolled_back : {S A : Type 0} → S → Outcome A × S → Outcome A × S
rolled_back s (ok a, s') = (ok a, s')
rolled_back s (raised e, s') = (raised e, s)

abbrev pub transaction : {S A : Type 0} → Exec S A → Exec S A
transaction m s = rolled_back s (m s)

module _ {Row : Type 0} (t : Table Row) where
  open t use {Db, update, insert}

  -- `if rc == 0`: insert if missing.
  abbrev pub insert_if_none : ℕ → Text → Row → Exec Db (Unit {0})
  insert_if_none zero k r s = insert k r s
  insert_if_none (suc n) k r s = (ok tt, s)

  -- Update the row of a key, or insert one where the update met none, in one transaction.
  pub upsert : Text → (Row → Row) → Row → Exec Db (Unit {0})
  upsert k f r = transaction (do rc ← update k f; insert_if_none rc k r)

  abbrev pub upserted : Option Row → (Row → Row) → Row → Row
  upserted none f r = r
  upserted (some old) f r = f old

  module _ (laws : IsTable t) (k : Text) (f : Row → Row) (r : Row) (s : Db) where
    open laws use {row, update_ok, update_row, insert_ok, insert_row}

    upsert-some : {old : Row} → row s k ≡ some old → upsert k f r s ≡ (ok tt, (update k f s).1)
    unfolding upsert
    upsert-some e = rw (update_ok k f s, e)

    still_missing : row s k ≡ none → row (update k f s).1 k ≡ none
    still_missing e = update_row k f s k ∙ rw (==_self, e)

    upsert-none : row s k ≡ none → upsert k f r s ≡ (ok tt, (insert k r (update k f s).1).1)
    unfolding upsert
    upsert-none e = rw (update_ok k f s, e, insert_ok k r _ (still_missing e))

    -- On a database that answers, the key has its new row afterwards and all others keep theirs.
    pub upsert_ok : (upsert k f r s).0 ≡ ok tt
    upsert_ok = elim (Option-cases (row s k)) [
      | inl e ↦ rw (upsert-none e)
      | inr (old, e) ↦ rw (upsert-some e)
    ]

    pub upsert_row :
        (j : Text)
        → row (upsert k f r s).1 j ≡ (if k == j then some (upserted (row s k) f r) else row s j)
    upsert_row j = elim (Option-cases (row s k)) [
      | inl e ↦
          rw (upsert-none e, insert_row k r _ j (still_missing e), update_row k f s j, e)
            (ground arith)
      | inr (old, e) ↦ rw (upsert-some e, update_row k f s j, e)
    ]

module _ {Row : Type 0} where
  unfoldable pub lookup : List (Text × Row) → Text → Option Row
  lookup [] k = none
  lookup ((j, r) ∷ l) k = if j == k then some r else lookup l k

  unfoldable pub change : Text → (Row → Row) → List (Text × Row) → List (Text × Row)
  change k f [] = []
  change k f ((j, r) ∷ l) = if j == k then (j, f r) ∷ l else (j, r) ∷ change k f l

  pub lookup-change :
      (k : Text) (f : Row → Row) (l : List (Text × Row)) (j : Text)
      → lookup (change k f l) j ≡ (if k == j then map_row f (lookup l k) else lookup l j)
  unfolding lookup change
  lookup-change k f [] j = ground arith
  lookup-change k f ((i, r) ∷ l) j =
      ground (arith, lookup-change k f l j, ==_iff i k, ==_iff i j, ==_iff k j)

  abbrev insert_if : Option Row → Text → Row → Exec (List (Text × Row)) (Unit {0})
  insert_if none k r l = (ok tt, (k, r) ∷ l)
  insert_if (some old) k r l =
      (raised (record { kind = other; message = codes "duplicate key" }), l)

  abbrev pub memory : Table Row
  memory = record {
    Db = List (Text × Row);
    select = λ k l. (ok (lookup l k), l);
    update = λ k f l. (ok (row_count (lookup l k)), change k f l);
    insert = λ k r l. insert_if (lookup l k) k r l;
  }

  pub memory-insert_ok :
      (k : Text) (r : Row) (l : List (Text × Row))
      → lookup l k ≡ none
      → (insert_if (lookup l k) k r l).0 ≡ ok tt
  memory-insert_ok k r l h = rw h

  pub memory-insert_row :
      (k : Text) (r : Row) (l : List (Text × Row)) (j : Text)
      → lookup l k ≡ none
      → lookup (insert_if (lookup l k) k r l).1 j ≡ (if k == j then some r else lookup l j)
  memory-insert_row k r l j h = rw h (unfold lookup in refl)

  -- The interface can be met.
  abbrev pub memory-IsTable : IsTable memory
  memory-IsTable = record {
    row = lookup;
    select_lem = λ k l. refl;
    update_ok = λ k f l. refl;
    update_row = lookup-change;
    insert_ok = memory-insert_ok;
    insert_row = memory-insert_row;
  }
