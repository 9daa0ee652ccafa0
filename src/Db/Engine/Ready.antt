-- ===== src/Db/Engine/Ready.antt =====
-- `ensure_db_ready` over several requests.
use postfixblocker.Prelude.{
  ◌≡◌, refl, ap, ◌⊎◌, inl, inr, true, false, Option, none, some, List, [], ◌∷◌, arith, Bool-cases,
  Option-cases,
}
use postfixblocker.Exec.{Exn, ok}
use postfixblocker.Db.Engine.{App, try_ready, ensure_db_ready}

-- No engine was made, or the one that was made is the one in use; and a database that is ready has
-- an engine.
pub record IsOneEngine (a : App) : Type 0 where
  pub engine : ((a.db_engine ≡ none) × (a.made ≡ 0)) ⊎ ((a.db_engine ≡ some 0) × (a.made ≡ 1))
  pub ready : (a.db_ready ≡ false) ⊎ (a.db_engine ≡ some 0)

-- The requests, one after the other, each with how `create_engine` and `init_db` would end.
abbrev pub requests : List (Option Exn × Option Exn) → App → App
requests [] a = a
requests ((refused, failed) ∷ rest) a = requests rest (ensure_db_ready refused failed a).1

-- The state of a new application.
abbrev pub new_app : App
new_app = record { db_engine = none; db_ready = false; made = 0 }

pub ensure_db_ready-IsOneEngine :
    (refused failed : Option Exn) (a : App)
    → IsOneEngine a
    → IsOneEngine (ensure_db_ready refused failed a).1
unfolding ensure_db_ready try_ready
ensure_db_ready-IsOneEngine refused failed a h = elim (Bool-cases a.db_ready) [
  | inl done ↦ simp done h
  | inr e ↦ elim h.engine [
    | inl (n, m) ↦ elim (Option-cases refused) [
      | inr (x, r) ↦ rw (e, n, r) (record { engine = inl (refl, m); ready = inl refl })
      | inl r ↦ elim (Option-cases failed) [
        | inl f ↦
            rw (e, n, r, f)
              (record { engine = inr (ap some m, rw m refl); ready = inr (ap some m) })
        | inr (x, f) ↦
            rw (e, n, r, f)
              (record { engine = inr (ap some m, rw m refl); ready = inr (ap some m) })
      ]
    ]
    | inr (n, m) ↦ elim (Option-cases failed) [
      | inl f ↦ rw (e, n, f) (record { engine = inr (refl, m); ready = inr refl })
      | inr (x, f) ↦ rw (e, n, f) (record { engine = inr (refl, m); ready = inr refl })
    ]
  ]
]

requests-keep :
    (rs : List (Option Exn × Option Exn)) (a : App) → IsOneEngine a → IsOneEngine (requests rs a)
requests-keep [] a h = h
requests-keep ((refused, failed) ∷ rest) a h =
    requests-keep rest (ensure_db_ready refused failed a).1
      (ensure_db_ready-IsOneEngine refused failed a h)

-- Whatever requests come to a new application, and however often the engine or the schema fails,
-- at most one engine is ever made and it stays the one in use; once the database counts as ready
-- there is an engine.
pub requests-IsOneEngine : (rs : List (Option Exn × Option Exn)) → IsOneEngine (requests rs new_app)
requests-IsOneEngine rs =
    requests-keep rs new_app (record { engine = inl (refl, refl); ready = inl refl })

-- A database that counts as ready is not tried again.
pub ensure_db_ready_again :
    (refused failed : Option Exn) (a : App)
    → a.db_ready ≡ true
    → ensure_db_ready refused failed a ≡ (ok true, a)
unfolding ensure_db_ready
ensure_db_ready_again refused failed a h = ground arith

-- Where there is no engine yet and one can be made, there is one afterwards, even if `init_db` fails.
pub ensure_db_ready-some :
    (refused failed : Option Exn) (a : App)
    → refused ≡ none
    → a.db_engine ≡ none
    → a.db_ready ≡ false
    → (ensure_db_ready refused failed a).1.db_engine ≡ some a.made
unfolding ensure_db_ready try_ready
ensure_db_ready-some refused failed a r e n = elim (Option-cases failed) [
  | inl f ↦ rw (n, e, r, f) refl
  | inr (x, f) ↦ rw (n, e, r, f) refl
]

-- A request that finds the database ready, or makes it so, leaves it ready: the next one is answered
-- true without a further attempt, whatever would fail then.
pub ensure_db_ready-ensure_db_ready :
    (refused failed refused' failed' : Option Exn) (a : App)
    → (ensure_db_ready refused failed a).0 ≡ ok true
    → ensure_db_ready refused' failed' (ensure_db_ready refused failed a).1
      ≡ (ok true, (ensure_db_ready refused failed a).1)
unfolding ensure_db_ready try_ready
ensure_db_ready-ensure_db_ready refused failed refused' failed' a h = ground arith
