-- ===== src/Db/Schema/Tests.antt =====
-- A load that breaks off at the last table, and a whole one.
use postfixblocker.Prelude.{ℕ, ◌≡◌, refl, ◌⊎◌, List, [], ◌∷◌, if◌then◌else◌}
use postfixblocker.Text.{codes, ◌==◌}
use postfixblocker.Exec.{Exn, operational, ok, raised}
use postfixblocker.Db.Schema.{
  Constructors, not_loaded, load, ensure_loaded, get_blocked_table, get_props_table,
}
use postfixblocker.Db.Schema.Loaded.{
  Getter, blocked, props, get, item, IsFrom, run, get-OneMetadata,
}

abbrev broken : Exn
broken = record { kind = operational; message = codes "broken" }

abbrev all_good : Constructors
all_good = record { new_metadata = ok tt; new_table = λ name. ok tt }

abbrev no_users : Constructors
no_users = record {
  new_metadata = ok tt;
  new_table = λ name. if name == codes "um_user" then raised broken else ok tt;
}

abbrev earlier : List (Getter × Constructors)
earlier = (blocked, no_users) ∷ []

get-broken : (get no_users blocked not_loaded).0 ≡ raised broken
unfolding ◌==◌ load ensure_loaded get_blocked_table
get-broken = refl

get-again : (get all_good props (run earlier not_loaded)).0 ≡ ok (item props 1)
unfolding ◌==◌ load ensure_loaded get_blocked_table get_props_table
get-again = refl

get-OneMetadata_example :
    ((e : Exn) × ((get all_good props (run earlier not_loaded)).0 ≡ raised e) × IsFrom all_good e)
    ⊎ ((m : ℕ) × ((get all_good props (run earlier not_loaded)).0 ≡ ok (item props m))
        × ((later : List (Getter × Constructors)) (make' : Constructors) (h : Getter)
            → (get make' h (run later (get all_good props (run earlier not_loaded)).1)).0
              ≡ ok (item h m)))
get-OneMetadata_example = get-OneMetadata earlier all_good props
