-- ===== src/Db/Props.antt =====
-- postfix_blocker/db/props.py: the properties in `cris_props`. A row holds its value, which may be
-- null; the update time is not modelled, since the program never reads it.
pub mod Laws
pub mod Seed
mod Tests
use postfixblocker.Prelude.{
  ℕ, zero, suc, ◌≡◌, Bool, true, false, Option, none, some, List, [], ◌∷◌, ◌++◌, if◌then◌else◌, any,
  ◌||◌,
}
use postfixblocker.Text.{Text, codes, lower, contains}
use postfixblocker.Exec.{
  Kind, attribute_error, Exn, Outcome, ok, raised, Exec, pure, try_except, handle, continue, ◌>>=◌,
  ◌>>◌,
}
use postfixblocker.Db.Table.{Table, transaction}

-- The keys of LOG_KEYS, REFRESH_KEYS and LINES_KEYS.
pub data Service : Type 0 where
  api blocker postfix : Service

abbrev pub service_name : Service → Text
service_name api = codes "api"
service_name blocker = codes "blocker"
service_name postfix = codes "postfix"

abbrev pub log_key : Service → Text
log_key s = codes "postfix-blocker.log.level." ++ service_name s

abbrev pub refresh_key : Service → Text
refresh_key s = codes "postfix-blocker.log.refresh." ++ service_name s

abbrev pub lines_key : Service → Text
lines_key s = codes "postfix-blocker.log.lines." ++ service_name s

-- DEFAULT_PROP_VALUES, in its order.
abbrev pub default_prop_values : List (Text × Option Text)
default_prop_values =
    (log_key api, some (codes "INFO"))
    ∷ (log_key blocker, some (codes "INFO"))
    ∷ (log_key postfix, some (codes "INFO"))
    ∷ (refresh_key api, some (codes "5000"))
    ∷ (refresh_key blocker, some (codes "5000"))
    ∷ (refresh_key postfix, some (codes "5000"))
    ∷ (lines_key api, some (codes "100"))
    ∷ (lines_key blocker, some (codes "100"))
    ∷ (lines_key postfix, some (codes "100"))
    ∷ []

-- A missing row and a null value both give the default.
abbrev pub value_or : Option (Option Text) → Option Text → Option Text
value_or none default = default
value_or (some none) default = default
value_or (some (some v)) default = some v

-- `_is_duplicate_error`.
pub is_duplicate_error : Exn → Bool
is_duplicate_error e =
    let msg = lower e.message in
    any (λ token. contains token msg)
      (codes "duplicate" ∷ codes "unique" ∷ codes "sql0803" ∷ codes "constraint" ∷ [])

module _ (t : Table (Option Text)) where
  open t use {Db, select, update, insert}

  pub get_prop : Text → Option Text → Exec Db (Option Text)
  get_prop key default =
      try_except (do found ← select key; pure (value_or found default)) (λ e. pure default)

  -- The insert where the update met no row, and the update again where the insert raises.
  insert_if_none : ℕ → Text → Option Text → Exec Db (Unit {0})
  insert_if_none (suc rc) key value = pure tt
  insert_if_none zero key value =
      try_except (insert key value) (λ e. do update key (λ _. value); pure tt)

  pub set_prop : Text → Option Text → Exec Db (Unit {0})
  unfolding insert_if_none
  set_prop key value = transaction (do rc ← update key (λ _. value); insert_if_none rc key value)

  -- The other statements of the seeding, each on the same table.
  pub record Driver : Type 0 where
    pub count : Text → Exec Db ℕ
    pub driver_probe : Text → Exec Db Bool
    pub db2_probe : Text → Exec Db Bool
    pub driver_ts_insert : Text → Option Text → Exec Db (Unit {0})
    pub driver_insert : Text → Option Text → Exec Db (Unit {0})
    pub db2_ts_insert : Text → Option Text → Exec Db (Unit {0})
    pub db2_insert : Text → Option Text → Exec Db (Unit {0})

  abbrev is_attribute_error : Kind → Bool
  is_attribute_error attribute_error = true
  is_attribute_error _ = false

  abbrev is_positive : ℕ → Bool
  is_positive zero = false
  is_positive (suc n) = true

  -- `any` over the attempts: the first that inserts, or that finds a duplicate, ends the search.
  pub run_insert_attempts : List (Exec Db (Unit {0})) → Exec Db Bool
  unfolding is_duplicate_error
  run_insert_attempts [] = pure false
  run_insert_attempts (action ∷ rest) =
      let later = run_insert_attempts rest in
      do
        done ← try_except (do action; pure true) (λ e. pure (is_duplicate_error e))
        if done then pure true else later

  module _ (d : Driver) (is_db2 : Bool) where
    -- The probe of last resort, on DB2 alone.
    probe_db2 : Text → Exec Db Bool
    probe_db2 key = if is_db2 then try_except (d.db2_probe key) (λ e. pure false) else pure false

    pub probe_exists : Text → Exec Db Bool
    unfolding probe_db2
    probe_exists key =
        try_except (do n ← d.count key; pure (is_positive n))
          λ e.
            if is_attribute_error e.kind
            then try_except (d.driver_probe key) (λ _. probe_db2 key)
            else probe_db2 key

    abbrev pub build_insert_attempts : Text → Option Text → List (Exec Db (Unit {0}))
    build_insert_attempts key default =
        insert key default
        ∷ d.driver_ts_insert key default
        ∷ d.driver_insert key default
        ∷ (if is_db2 then d.db2_ts_insert key default ∷ d.db2_insert key default ∷ [] else [])

    -- One key: whether it was inserted.
    pub seed_one : Text → Option Text → Exec Db Bool
    seed_one key default = do
      exists ← probe_exists key
      if exists then pure false else run_insert_attempts (build_insert_attempts key default)

    -- The loop; the result lists the keys that were inserted.
    pub seed_loop : List (Text × Option Text) → Exec Db (List Text)
    seed_loop [] = pure []
    seed_loop ((key, default) ∷ rest) =
        let later = seed_loop rest in
        do
          done ← seed_one key default
          inserted ← later
          pure (if done then key ∷ inserted else inserted)

    pub seed_default_props : Exec Db (List Text)
    seed_default_props = transaction (seed_loop default_prop_values)
