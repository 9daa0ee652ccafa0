-- ===== src/Db/Engine/Tests.antt =====
-- The users' engine outside tests, where no table can be created on it, and the main one.
use postfixblocker.Prelude.{◌≡◌, refl, true, none, some, []}
use postfixblocker.Text.{codes, starts_with}
use postfixblocker.Exec.{Exn, other, ok, raised}
use postfixblocker.Db.Engine.{
  Variables, Caches, compute_um_db_url, create_engine, ensure_um_table_exists, Ends, new_engine,
  get_user_engine, try_ready, ensure_db_ready,
}
use postfixblocker.Db.Engine.Ready.{new_app}

abbrev offline : Exn
offline = record { kind = other; message = codes "offline" }

-- Every engine can be made, but no table on it.
abbrev accepts : Ends
accepts = record { refuses = λ url. none; user_table = ok tt; create_table = λ eng. raised offline }

abbrev plain : Variables
plain = record { current_test = none; um_db_url = none; um_db_path = some (codes "um.db") }

abbrev moved : Variables
moved = record { current_test = none; um_db_url = some (codes "sqlite://"); um_db_path = none }

abbrev no_engines : Caches
no_engines = record { um_engine = none; um_engines = []; made = []; with_table = [] }

plain_url : compute_um_db_url plain ≡ codes "sqlite:///um.db"
unfolding compute_um_db_url starts_with
plain_url = refl

first_call : (get_user_engine accepts plain no_engines).0 ≡ ok 0
unfolding get_user_engine new_engine create_engine ensure_um_table_exists
first_call = refl

made_ready : (ensure_db_ready none none new_app).0 ≡ ok true
unfolding ensure_db_ready try_ready
made_ready = refl
