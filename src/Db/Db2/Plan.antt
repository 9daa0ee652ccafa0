-- ===== src/Db/Db2/Plan.antt =====
-- What the Db2 bootstrap executes, by what the catalog says when it starts.
use postfixblocker.Prelude.{
  ℕ, ◌≡◌, refl, ap, ◌∙◌, Bool, true, false, not, ◌&&◌, ◌||◌, Option, none, some, List, [], ◌∷◌,
  ◌++◌, append_assoc, arith, eqb,
}
use postfixblocker.Exec.{ok}
use postfixblocker.Db.Db2.{
  Statement, sql, drop_tablespace, drop_bufferpool, create_bufferpool, Catalog, fetchone, count_of,
  is_zero, has_wrong_size, World, attempt, drops_tablespace, drops_bufferpool, creates_bufferpool,
  init_db2,
}
use postfixblocker.Db.Db2.Trace.{
  objects, only, run_when, last_of, storage, all_look_empty, drops_tablespace-all, init_db2-storage,
}

abbrev pub is_there : Option (ℕ × ℕ) → Bool
is_there none = false
is_there (some (n, page_size)) = not (eqb n 0)

module _ {Db : Type 0} (c : Catalog Db) where
  not_there : (o : Option (ℕ × ℕ)) → is_zero c (count_of c o) ≡ not (is_there o)
  not_there none = refl
  not_there (some (n, page_size)) = ground arith

  -- The tablespace has another page size, and each of its tables looks empty.
  abbrev pub replaces_tablespace : Db → Bool
  replaces_tablespace d =
      has_wrong_size c (fetchone (c.tablespace d)) && all_look_empty c d (c.tables d)

  -- The bufferpool has another page size, and no tablespace will use it.
  abbrev pub replaces_bufferpool : Db → Bool
  replaces_bufferpool d =
      has_wrong_size c (fetchone (c.bufferpool d))
      && (replaces_tablespace d || not (is_there (fetchone (c.tablespace d))))

  -- The statements that depend on a test at the start.
  abbrev pub at_start : Db → List Statement
  at_start d =
      only (replaces_tablespace d) drop_tablespace
      ++ (only (replaces_bufferpool d) drop_bufferpool
          ++ only (replaces_bufferpool d || not (is_there (fetchone (c.bufferpool d))))
              create_bufferpool)

  -- The database after some statements, whether they raised or not.
  abbrev pub run_all : List Statement → Db → Db
  run_all [] d = d
  run_all (s ∷ l) d = run_all l (c.execute (sql s) d).1

  abbrev pub plan : Db → List Statement
  plan d =
      at_start d ++ last_of c (fetchone (c.tablespace_count (run_all (at_start d) d))) ∷ objects

  drops_bufferpool-replaces : (d : Db) → drops_bufferpool c d ≡ replaces_bufferpool d
  unfolding drops_bufferpool
  drops_bufferpool-replaces d =
      rw (drops_tablespace-all c d, not_there (fetchone (c.tablespace d))) refl

  creates_bufferpool-replaces :
      (d : Db)
      → creates_bufferpool c d
        ≡ (replaces_bufferpool d || not (is_there (fetchone (c.bufferpool d))))
  unfolding creates_bufferpool
  creates_bufferpool-replaces d =
      rw (drops_bufferpool-replaces d, not_there (fetchone (c.bufferpool d))) refl

  run_all-append : (l m : List Statement) (d : Db) → run_all (l ++ m) d ≡ run_all m (run_all l d)
  run_all-append [] m d = refl
  run_all-append (s ∷ l) m d = run_all-append l m (c.execute (sql s) d).1

  run_when-db :
      (b : Bool) (s : Statement) (w : World c) → (run_when c b s w).db ≡ run_all (only b s) w.db
  run_when-db true s w = unfold attempt in refl
  run_when-db false s w = refl

  -- The database behind the conditional statements, for any three tests.
  three-db :
      (t b cr : Bool) (w : World c)
      → (run_when c cr create_bufferpool
          (run_when c b drop_bufferpool (run_when c t drop_tablespace w))).db
        ≡ run_all
            (only t drop_tablespace ++ (only b drop_bufferpool ++ only cr create_bufferpool))
            w.db
  three-db t b cr w =
      rw
        (
          run_when-db cr create_bufferpool
              (run_when c b drop_bufferpool (run_when c t drop_tablespace w)),
          run_when-db b drop_bufferpool (run_when c t drop_tablespace w),
          run_when-db t drop_tablespace w,
          run_all-append,
          run_all-append,
        )
        refl

  storage-plan : (w : World c) → storage c w ++ objects ≡ plan w.db
  storage-plan w =
      rw
        (
          three-db (drops_tablespace c w.db) (drops_bufferpool c w.db) (creates_bufferpool c w.db)
              w,
          creates_bufferpool-replaces w.db,
          drops_bufferpool-replaces w.db,
          drops_tablespace-all c w.db,
        )
        (simp append_assoc refl)

  -- Whatever fails, the bootstrap returns, and what it executes is, in this order: the drop of a
  -- tablespace that has another page size than 32768 and whose tables can be listed and look empty;
  -- the drop of a bufferpool of another page size, where the tablespace is dropped or there is none;
  -- the creation of the bufferpool, where it is dropped or there is none; the creation of the
  -- tablespace, or the change of it where the database then has one; and the schema, the two tables,
  -- the trigger and the two aliases, each alias dropped first.
  pub init_db2-executed :
      (w : World c)
      → ((init_db2 c w).0 ≡ ok tt) × ((init_db2 c w).1.executed ≡ w.executed ++ plan w.db)
  init_db2-executed w =
      let (r, e) = init_db2-storage c w in (r, e ∙ ap (λ l. w.executed ++ l) (storage-plan w))
