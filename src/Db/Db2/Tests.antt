-- ===== src/Db/Db2/Tests.antt =====
-- The bootstrap on a catalog with a tablespace of 4096 bytes and one table without statistics.
use postfixblocker.Prelude.{◌≡◌, refl, true, ◌&&◌, ◌||◌, some, List, [], ◌∷◌, ◌++◌, any}
use postfixblocker.Text.{Text, codes}
use postfixblocker.Text.Decimal.{negsuc}
use postfixblocker.Exec.{other, ok, raised}
use postfixblocker.Db.Db2.{Catalog, World, fetchone, has_wrong_size, init_db2}
use postfixblocker.Db.Db2.Plan.{plan, init_db2-executed}
use postfixblocker.Db.Db2.Trace.{
  is_drop, all_look_empty, init_db2-drop, init_db2-drop_no_statistics,
}

-- Every statement fails.
abbrev failing : Catalog (List Text)
failing = record {
  tablespace = λ d. ok (some (1, 4096));
  bufferpool = λ d. ok (some (0, 0));
  tables = λ d. ok ((some (codes "APP "), some (codes "ORDERS")) ∷ []);
  card = λ sch tab d. ok (some (negsuc 0));
  tablespace_count = λ d. raised (record { kind = other; message = codes "SQL0204N" });
  execute = λ s d. (raised (record { kind = other; message = s }), s ∷ d);
}

abbrev world : World failing
world = record { db = []; executed = [] }

init_db2-executed_example :
    ((init_db2 failing world).0 ≡ ok tt)
    × ((init_db2 failing world).1.executed ≡ world.executed ++ plan failing [])
init_db2-executed_example = init_db2-executed failing world

init_db2-drop_example : any is_drop (init_db2 failing world).1.executed ≡ (
    any is_drop world.executed
    || (has_wrong_size failing (fetchone (failing.tablespace []))
        && all_look_empty failing [] (failing.tables [])))
init_db2-drop_example = init_db2-drop failing world

init_db2-drop_no_statistics_example : any is_drop (init_db2 failing world).1.executed ≡ true
init_db2-drop_no_statistics_example =
    init_db2-drop_no_statistics failing world 0 4096
      ((some (codes "APP "), some (codes "ORDERS")) ∷ []) refl refl refl (refl, tt)
