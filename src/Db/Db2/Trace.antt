-- ===== src/Db/Db2/Trace.antt =====
-- The statements that the Db2 bootstrap executes.
use postfixblocker.Prelude.{
  ℕ, zero, suc, ◌≡◌, refl, sym, ◌∙◌, Bool, true, false, not, ◌&&◌, ◌||◌, Option, none, some, List,
  [], ◌∷◌, ◌++◌, append_assoc, append-nil, arith, eqb, any,
}
use postfixblocker.Text.Decimal.{negsuc}
use postfixblocker.Exec.{Outcome, ok, raised}
use postfixblocker.Db.Db2.{
  Statement, drop_tablespace, drop_bufferpool, create_bufferpool, create_tablespace,
  alter_tablespace, create_schema, create_blocked_addresses, create_cris_props, create_trigger,
  drop_alias_blocked, create_alias_blocked, drop_alias_props, create_alias_props, TableName,
  Catalog, fetchone, name_of, is_system, is_populated, any_populated, has_tables_with_rows, World,
  attempt, when_true, has_wrong_size, drops_tablespace, drops_bufferpool, creates_bufferpool,
  tablespace_step, ensure_storage, ensure_objects, init_db2,
}

-- The statements for the schema and what is in it.
abbrev pub objects : List Statement
objects =
    create_schema ∷ create_blocked_addresses ∷ create_cris_props ∷ create_trigger
    ∷ drop_alias_blocked ∷ create_alias_blocked ∷ drop_alias_props ∷ create_alias_props ∷ []

abbrev pub only : Bool → Statement → List Statement
only true s = s ∷ []
only false s = []

abbrev pub is_drop : Statement → Bool
is_drop drop_tablespace = true
is_drop _ = false

abbrev pub all : {A : Type 0} → (A → Bool) → List A → Bool
all p [] = true
all p (x ∷ xs) = p x && all p xs

any-append :
    {A : Type 0} (p : A → Bool) (xs ys : List A) → any p (xs ++ ys) ≡ (any p xs || any p ys)
any-append p [] ys = refl
any-append p (x ∷ xs) ys = ground (arith, any-append p xs ys)

not-not : (b : Bool) → not (not b) ≡ b
not-not true = refl
not-not false = refl

any-only : (b : Bool) → any is_drop (only b drop_tablespace) ≡ b
any-only true = refl
any-only false = refl

module _ {Db : Type 0} (c : Catalog Db) where
  -- The state after a statement, where it is executed.
  abbrev pub run_when : Bool → Statement → World c → World c
  run_when true s w = (attempt c s w).1
  run_when false s w = w

  when_true-attempt :
      (b : Bool) (s : Statement) (w : World c)
      → when_true c b (attempt c s) w ≡ (ok tt, run_when b s w)
  when_true-attempt true s w = unfold attempt in refl
  when_true-attempt false s w = refl

  run_when-executed :
      (b : Bool) (s : Statement) (w : World c) → (run_when b s w).executed ≡ w.executed ++ only b s
  run_when-executed true s w = unfold attempt in refl
  run_when-executed false s w = sym (append-nil w.executed)

  -- The states behind the three conditional statements.
  abbrev pub dropped : World c → World c
  dropped w = run_when (creates_bufferpool c w.db) create_bufferpool (
      run_when (drops_bufferpool c w.db) drop_bufferpool
        (run_when (drops_tablespace c w.db) drop_tablespace w))

  abbrev pub last_of : Option ℕ → Statement
  last_of none = create_tablespace
  last_of (some zero) = create_tablespace
  last_of (some (suc n)) = alter_tablespace

  tablespace_step_lem : (o : Option ℕ) → tablespace_step c o ≡ attempt c (last_of o)
  tablespace_step_lem none = refl
  tablespace_step_lem (some zero) = refl
  tablespace_step_lem (some (suc n)) = refl

  ensure_storage_lem :
      (w : World c)
      → ensure_storage c w
        ≡ attempt c (last_of (fetchone (c.tablespace_count (dropped w).db))) (dropped w)
  unfolding ensure_storage
  ensure_storage_lem w =
      let one = run_when (drops_tablespace c w.db) drop_tablespace w in
      let two = run_when (drops_bufferpool c w.db) drop_bufferpool one in
      rw
        (
          when_true-attempt (drops_tablespace c w.db) drop_tablespace w,
          when_true-attempt (drops_bufferpool c w.db) drop_bufferpool one,
          when_true-attempt (creates_bufferpool c w.db) create_bufferpool two,
          tablespace_step_lem (fetchone (c.tablespace_count (dropped w).db)),
        )
        refl

  -- The statements about the tablespace and the bufferpool, for the two conditions and the last one.
  abbrev pub storage : World c → List Statement
  storage w =
      only (drops_tablespace c w.db) drop_tablespace
      ++ (only (drops_bufferpool c w.db) drop_bufferpool
          ++ (only (creates_bufferpool c w.db) create_bufferpool
              ++ last_of (fetchone (c.tablespace_count (dropped w).db)) ∷ []))

  dropped-executed :
      (w : World c)
      → (dropped w).executed
        ≡ w.executed
          ++ (only (drops_tablespace c w.db) drop_tablespace
              ++ (only (drops_bufferpool c w.db) drop_bufferpool
                  ++ only (creates_bufferpool c w.db) create_bufferpool))
  dropped-executed w =
      let one = run_when (drops_tablespace c w.db) drop_tablespace w in
      let two = run_when (drops_bufferpool c w.db) drop_bufferpool one in
      rw
        (
          run_when-executed (creates_bufferpool c w.db) create_bufferpool two,
          run_when-executed (drops_bufferpool c w.db) drop_bufferpool one,
          run_when-executed (drops_tablespace c w.db) drop_tablespace w,
        )
        (simp append_assoc refl)

  ensure_storage-executed :
      (w : World c) → (ensure_storage c w).1.executed ≡ w.executed ++ storage w
  ensure_storage-executed w =
      rw ensure_storage_lem (unfold attempt in rw dropped-executed (simp append_assoc refl))

  ensure_objects-executed : (w : World c) → (ensure_objects c w).1.executed ≡ w.executed ++ objects
  unfolding ensure_objects attempt
  ensure_objects-executed w = simp append_assoc refl

  init_db2_lem : (w : World c) → init_db2 c w ≡ ensure_objects c (ensure_storage c w).1
  unfolding init_db2
  init_db2_lem w = rw ensure_storage_lem (unfold attempt in refl)

  ensure_objects-ok : (w : World c) → (ensure_objects c w).0 ≡ ok tt
  unfolding ensure_objects attempt
  ensure_objects-ok w = refl

  -- The statements of the whole bootstrap.
  pub init_db2-storage :
      (w : World c)
      → ((init_db2 c w).0 ≡ ok tt)
        × ((init_db2 c w).1.executed ≡ w.executed ++ (storage w ++ objects))
  init_db2-storage w = rw init_db2_lem (
    ensure_objects-ok (ensure_storage c w).1,
    ensure_objects-executed (ensure_storage c w).1
        ∙ rw ensure_storage-executed (append_assoc w.executed (storage w) objects),
  )

  -- A table that the probe takes for empty: a system table, or one with no positive CARD.
  abbrev pub looks_empty : Db → TableName → Bool
  looks_empty d (sch, tab) =
      is_system sch || not (is_populated (c.card (name_of sch) (name_of tab) d))

  abbrev pub all_look_empty : Db → Outcome (List TableName) → Bool
  all_look_empty d (raised e) = false
  all_look_empty d (ok rows) = all (looks_empty d) rows

  any_populated-all :
      (rows : List TableName) (d : Db) → any_populated c rows d ≡ not (all (looks_empty d) rows)
  unfolding any_populated
  any_populated-all [] d = refl
  any_populated-all ((sch, tab) ∷ rows) d = ground (arith, any_populated-all rows d)

  has_tables_with_rows-all :
      (o : Outcome (List TableName)) (d : Db)
      → not (has_tables_with_rows c o d) ≡ all_look_empty d o
  unfolding has_tables_with_rows
  has_tables_with_rows-all (raised e) d = refl
  has_tables_with_rows-all (ok rows) d = rw any_populated-all (not-not (all (looks_empty d) rows))

  pub drops_tablespace-all :
      (d : Db)
      → drops_tablespace c d
        ≡ (has_wrong_size c (fetchone (c.tablespace d)) && all_look_empty d (c.tables d))
  unfolding drops_tablespace
  drops_tablespace-all d = rw has_tables_with_rows-all refl

  storage_plan-drop :
      (t b cr : Bool) (o : Option ℕ)
      → any is_drop (
          only t drop_tablespace
          ++ (only b drop_bufferpool ++ (only cr create_bufferpool ++ last_of o ∷ [])))
        ≡ t
  storage_plan-drop t b cr o = ground arith

  storage-drop : (w : World c) → any is_drop (storage w) ≡ drops_tablespace c w.db
  storage-drop w =
      storage_plan-drop (drops_tablespace c w.db) (drops_bufferpool c w.db)
        (creates_bufferpool c w.db) (fetchone (c.tablespace_count (dropped w).db))

  -- DROP TABLESPACE is executed exactly where the tablespace is there with another page size than
  -- 32768, its tables can be listed, and each of them is a system table or has a CARD that can be
  -- read and is not positive.
  pub init_db2-drop :
      (w : World c)
      → any is_drop (init_db2 c w).1.executed ≡ (
          any is_drop w.executed
          || (has_wrong_size c (fetchone (c.tablespace w.db))
              && all_look_empty w.db (c.tables w.db)))
  init_db2-drop w =
      rw ((init_db2-storage w).1, any-append, any-append, storage-drop, drops_tablespace-all)
        (ground arith)

  -- CARD is -1 for every table of the list.
  abbrev pub IsUnanalysed : Db → List TableName → Type 0
  IsUnanalysed d [] = Unit
  IsUnanalysed d ((sch, tab) ∷ rows) =
      (c.card (name_of sch) (name_of tab) d ≡ ok (some (negsuc 0))) × IsUnanalysed d rows

  all-looks_empty :
      (d : Db) (rows : List TableName) → IsUnanalysed d rows → all (looks_empty d) rows ≡ true
  all-looks_empty d [] unknown = refl
  all-looks_empty d ((sch, tab) ∷ rows) unknown =
      ground (arith, unknown.0, all-looks_empty d rows unknown.1)

  -- CARD is -1 where no statistics were collected. If that is so for every listed table of a
  -- tablespace that is there with another page size than 32768, and the tables can be listed, the
  -- tablespace is dropped, whatever rows the tables hold.
  pub init_db2-drop_no_statistics :
      (w : World c) (n page_size : ℕ) (rows : List TableName)
      → c.tablespace w.db ≡ ok (some (suc n, page_size))
      → eqb page_size 32768 ≡ false
      → c.tables w.db ≡ ok rows
      → IsUnanalysed w.db rows
      → any is_drop (init_db2 c w).1.executed ≡ true
  init_db2-drop_no_statistics w n page_size rows e size f unknown =
      rw (init_db2-drop w, e, size, f, all-looks_empty w.db rows unknown) (ground arith)
