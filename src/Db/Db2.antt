-- ===== src/Db/Db2.antt =====
-- The Db2 part of `init_db` in postfix_blocker/db/migrations.py. The catalog queries read the
-- database; every other statement may raise, and is recorded in the order of execution.
pub mod Trace
pub mod Plan
mod Tests
use postfixblocker.Prelude.{
  ℕ, zero, suc, ◌≡◌, Bool, true, false, not, ◌&&◌, ◌||◌, Option, none, some, List, [], ◌∷◌, ◌++◌,
  eqb, if◌then◌else◌, or_else,
}
use postfixblocker.Text.{Text, codes, strip, upper, starts_with}
use postfixblocker.Text.Decimal.{ℤ, pos, negsuc}
use postfixblocker.Exec.{
  Outcome, ok, raised, Exec, pure, get_state, try_except, handle, continue, ◌>>=◌, ◌>>◌,
}

-- The statements that change the database, with their SQL below.
pub data Statement : Type 0 where
  drop_tablespace drop_bufferpool create_bufferpool create_tablespace alter_tablespace : Statement
  create_schema create_blocked_addresses create_cris_props create_trigger : Statement
  drop_alias_blocked create_alias_blocked drop_alias_props create_alias_props : Statement

abbrev pub sql : Statement → Text
sql drop_tablespace = codes "DROP TABLESPACE TS32K"
sql drop_bufferpool = codes "DROP BUFFERPOOL BP32K"
sql create_bufferpool = codes "CREATE BUFFERPOOL BP32K SIZE 1000 PAGESIZE 32K"
sql create_tablespace =
    codes
      "CREATE TABLESPACE TS32K PAGESIZE 32K MANAGED BY AUTOMATIC STORAGE EXTENTSIZE 32 BUFFERPOOL BP32K"
sql alter_tablespace = codes "ALTER TABLESPACE TS32K BUFFERPOOL BP32K"
sql create_schema = codes "CREATE SCHEMA CRISOP"
sql create_blocked_addresses =
    codes
      "CREATE TABLE CRISOP.BLOCKED_ADDRESSES (  ID INTEGER GENERATED ALWAYS AS IDENTITY (START WITH 1, INCREMENT BY 1) PRIMARY KEY,   PATTERN VARCHAR(255) NOT NULL,   IS_REGEX SMALLINT NOT NULL DEFAULT 0,   TEST_MODE SMALLINT NOT NULL DEFAULT 1,   UPDATED_AT TIMESTAMP NOT NULL DEFAULT CURRENT TIMESTAMP ) IN TS32K INDEX IN TS32K"
sql create_cris_props =
    codes
      "CREATE TABLE CRISOP.CRIS_PROPS (  KEY       VARCHAR(1024 OCTETS) NOT NULL,   VALUE     VARCHAR(1024 OCTETS),   UPDATE_TS TIMESTAMP(6),   CONSTRAINT XPKCRISPROPS PRIMARY KEY (KEY)) IN TS32K INDEX IN TS32K"
sql create_trigger =
    codes
      "CREATE OR REPLACE TRIGGER CRISOP.TRG_BLOCKED_ADDRESSES_SET_UPDATED\nNO CASCADE BEFORE UPDATE ON CRISOP.BLOCKED_ADDRESSES\nREFERENCING NEW AS N\nFOR EACH ROW\nSET N.UPDATED_AT = CURRENT TIMESTAMP"
sql drop_alias_blocked = codes "DROP ALIAS BLOCKED_ADDRESSES"
sql create_alias_blocked = codes "CREATE ALIAS BLOCKED_ADDRESSES FOR CRISOP.BLOCKED_ADDRESSES"
sql drop_alias_props = codes "DROP ALIAS CRIS_PROPS"
sql create_alias_props = codes "CREATE ALIAS CRIS_PROPS FOR CRISOP.CRIS_PROPS"

-- A table of the catalog: TABSCHEMA and TABNAME, which may be null.
abbrev pub TableName : Type 0
TableName = Option Text × Option Text

-- The database. `tablespace` and `bufferpool` give COUNT(*) and the page size, `tables` the tables of
-- TS32K, `card` the value COALESCE(CARD, 0) of a table, each `none` where there is no row or value.
pub record Catalog (Db : Type 0) : Type 0 where
  pub tablespace : Db → Outcome (Option (ℕ × ℕ))
  pub bufferpool : Db → Outcome (Option (ℕ × ℕ))
  pub tables : Db → Outcome (List TableName)
  pub card : Text → Text → Db → Outcome (Option ℤ)
  pub tablespace_count : Db → Outcome (Option ℕ)
  pub execute : Text → Exec Db (Unit {0})

-- `_fetchone`: an exception gives no row.
abbrev pub fetchone : {A : Type 0} → Outcome (Option A) → Option A
fetchone (ok row) = row
fetchone (raised e) = none

abbrev pub name_of : Option Text → Text
name_of name = strip (or_else name [])

abbrev pub is_system : Option Text → Bool
is_system sch = starts_with (codes "SYS") (upper (name_of sch))

abbrev pub is_positive : ℤ → Bool
is_positive (pos zero) = false
is_positive (pos (suc n)) = true
is_positive (negsuc n) = false

-- `card_row and int(card_row[0] or 0) > 0`, and `True` where the query raises.
abbrev pub is_populated : Outcome (Option ℤ) → Bool
is_populated (raised e) = true
is_populated (ok none) = false
is_populated (ok (some n)) = is_positive n

module _ {Db : Type 0} (c : Catalog Db) where
  -- The loop of `_tablespace_has_tables_with_rows`.
  pub any_populated : List TableName → Db → Bool
  any_populated [] d = false
  any_populated ((sch, tab) ∷ rows) d =
      let rest = any_populated rows d in
      if is_system sch
      then rest
      else if is_populated (c.card (name_of sch) (name_of tab) d)
      then true
      else rest

  -- `_tablespace_has_tables_with_rows`, on how the query of the tables ends.
  pub has_tables_with_rows : Outcome (List TableName) → Db → Bool
  has_tables_with_rows (raised e) d = true
  has_tables_with_rows (ok rows) d = any_populated rows d

  -- The database, and the statements executed so far.
  pub record World : Type 0 where
    pub db : Db
    pub executed : List Statement

  -- A statement whose exceptions are only logged.
  pub attempt : Statement → Exec World (Unit {0})
  attempt s w =
      (ok tt, record w { db = (c.execute (sql s) w.db).1; executed = w.executed ++ s ∷ [] })

  abbrev pub when_true : Bool → Exec World (Unit {0}) → Exec World (Unit {0})
  when_true true m = m
  when_true false m = pure tt

  abbrev pub count_of : Option (ℕ × ℕ) → ℕ
  count_of none = 0
  count_of (some (n, page_size)) = n

  abbrev pub is_zero : ℕ → Bool
  is_zero n = eqb n 0

  -- `count > 0 and pagesize != 32768`.
  abbrev pub has_wrong_size : Option (ℕ × ℕ) → Bool
  has_wrong_size none = false
  has_wrong_size (some (n, page_size)) = not (is_zero n) && not (eqb page_size 32768)

  -- The tests for the two drops; `ts_count` is then 0 where the tablespace was dropped.
  pub drops_tablespace : Db → Bool
  drops_tablespace d =
      has_wrong_size (fetchone (c.tablespace d)) && not (has_tables_with_rows (c.tables d) d)

  pub drops_bufferpool : Db → Bool
  unfolding drops_tablespace
  drops_bufferpool d =
      has_wrong_size (fetchone (c.bufferpool d))
      && (drops_tablespace d || is_zero (count_of (fetchone (c.tablespace d))))

  pub creates_bufferpool : Db → Bool
  unfolding drops_bufferpool
  creates_bufferpool d = drops_bufferpool d || is_zero (count_of (fetchone (c.bufferpool d)))

  -- The tablespace is counted again, after the statements so far.
  abbrev tablespace_step : Option ℕ → Exec World (Unit {0})
  tablespace_step none = attempt create_tablespace
  tablespace_step (some zero) = attempt create_tablespace
  tablespace_step (some (suc n)) = attempt alter_tablespace

  -- Part 1: the tablespace and the bufferpool.
  pub ensure_storage : Exec World (Unit {0})
  ensure_storage = do
    w ← get_state
    when_true (drops_tablespace w.db) (attempt drop_tablespace)
    when_true (drops_bufferpool w.db) (attempt drop_bufferpool)
    when_true (creates_bufferpool w.db) (attempt create_bufferpool)
    later ← get_state
    tablespace_step (fetchone (c.tablespace_count later.db))

  -- Parts 2 to 5: the schema, the tables, the trigger and the aliases.
  pub ensure_objects : Exec World (Unit {0})
  ensure_objects = do
    attempt create_schema
    attempt create_blocked_addresses
    attempt create_cris_props
    attempt create_trigger
    attempt drop_alias_blocked
    attempt create_alias_blocked
    attempt drop_alias_props
    attempt create_alias_props

  -- The block under `engine.begin()`.
  pub init_db2 : Exec World (Unit {0})
  init_db2 = do ensure_storage; ensure_objects
