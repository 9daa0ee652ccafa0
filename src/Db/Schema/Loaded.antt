-- ===== src/Db/Schema/Loaded.antt =====
-- What the getters of the schema return, however the loads before them ended.
use postfixblocker.Prelude.{
  ℕ, ◌+◌, ◌≡◌, refl, ap, ◌∙◌, ◌⊎◌, inl, inr, false, none, some, List, [], ◌∷◌, arith,
}
use postfixblocker.Text.{Text, codes}
use postfixblocker.Exec.{Exn, Outcome, ok, raised, Exec, pure, ◌>>=◌}
use postfixblocker.Db.Schema.{
  Column, SchemaTable, blocked_columns, props_columns, user_columns, Variables, not_loaded,
  is_loaded, Constructors, load, ensure_loaded, get_blocked_table, get_props_table,
  get_admins_table, get_user_table, get_metadata,
}

-- The getters, and what they return.
pub data Getter : Type 0 where
  blocked props admins user metadata : Getter

pub data Item : Type 0 where
  table : SchemaTable → Item
  number : ℕ → Item

abbrev as_table : Exec Variables SchemaTable → Exec Variables Item
as_table m = do t ← m; pure (table t)

abbrev pub get : Constructors → Getter → Exec Variables Item
get make blocked = as_table (get_blocked_table make)
get make props = as_table (get_props_table make)
get make admins = as_table (get_admins_table make)
get make user = as_table (get_user_table make)
get make metadata = do n ← get_metadata make; pure (number n)

abbrev table_of : Text → List Column → ℕ → SchemaTable
table_of name columns m = record { name = name; metadata = m; columns = columns }

-- What a getter returns where the whole schema belongs to one `MetaData`.
abbrev pub item : Getter → ℕ → Item
item blocked m = table (table_of (codes "blocked_addresses") blocked_columns m)
item props m = table (table_of (codes "cris_props") props_columns m)
item admins m = table (table_of (codes "admins") user_columns m)
item user m = table (table_of (codes "um_user") user_columns m)
item metadata m = number m

-- The variables after a whole load.
abbrev pub loaded : ℕ → Variables
loaded m = record {
  metadata = some m;
  blocked_table = some (table_of (codes "blocked_addresses") blocked_columns m);
  props_table = some (table_of (codes "cris_props") props_columns m);
  admins_table = some (table_of (codes "admins") user_columns m);
  user_table = some (table_of (codes "um_user") user_columns m);
  made = 1 + m;
}

-- An exception of one of the constructors.
abbrev pub IsFrom : Constructors → Exn → Type 0
IsFrom make e = (make.new_metadata ≡ raised e) ⊎ ((name : Text) × (make.new_table name ≡ raised e))

-- The load came to its end, or it was left before the last table was set.
abbrev IsEnded : (Exn → Type 0) → Variables → Outcome (Unit {0}) × Variables → Type 0
IsEnded From v x =
    (x ≡ (ok tt, loaded v.made))
    ⊎ ((e : Exn) × (x.0 ≡ raised e) × From e × (x.1.user_table ≡ v.user_table))

load-IsEnded :
    (From : Exn → Type 0) (o0 o1 o2 o3 o4 : Outcome (Unit {0})) (v : Variables)
    → ((e : Exn) → o0 ≡ raised e → From e)
    → ((e : Exn) → o1 ≡ raised e → From e)
    → ((e : Exn) → o2 ≡ raised e → From e)
    → ((e : Exn) → o3 ≡ raised e → From e)
    → ((e : Exn) → o4 ≡ raised e → From e)
    → IsEnded From v (load o0 o1 o2 o3 o4 v)
unfolding load
load-IsEnded From (raised e) o1 o2 o3 o4 v f0 f1 f2 f3 f4 = inr (e, refl, f0 e refl, refl)
load-IsEnded From (ok _) (raised e) o2 o3 o4 v f0 f1 f2 f3 f4 = inr (e, refl, f1 e refl, refl)
load-IsEnded From (ok _) (ok _) (raised e) o3 o4 v f0 f1 f2 f3 f4 = inr (e, refl, f2 e refl, refl)
load-IsEnded From (ok _) (ok _) (ok _) (raised e) o4 v f0 f1 f2 f3 f4 =
    inr (e, refl, f3 e refl, refl)
load-IsEnded From (ok _) (ok _) (ok _) (ok _) (raised e) v f0 f1 f2 f3 f4 =
    inr (e, refl, f4 e refl, refl)
load-IsEnded From (ok _) (ok _) (ok _) (ok _) (ok _) v f0 f1 f2 f3 f4 = inl refl

-- The last table is missing, or all belong to one `MetaData`.
abbrev IsCoherent : Variables → Type 0
IsCoherent v = (v.user_table ≡ none) ⊎ ((m : ℕ) × (v ≡ loaded m))

not_loaded_lem : (v : Variables) → v.user_table ≡ none → is_loaded v ≡ false
not_loaded_lem v h = ground arith

abbrev IsLoad : Constructors → Outcome (Unit {0}) × Variables → Type 0
IsLoad make x =
    ((m : ℕ) × (x ≡ (ok tt, loaded m)))
    ⊎ ((e : Exn) × (x.0 ≡ raised e) × IsFrom make e × (x.1.user_table ≡ none))

ensure_loaded-IsLoad :
    (make : Constructors) (v : Variables) → IsCoherent v → IsLoad make (ensure_loaded make v)
unfolding ensure_loaded
ensure_loaded-IsLoad make v (inr (m, h)) = inl (m, rw h refl)
ensure_loaded-IsLoad make v (inl h) =
    rw (not_loaded_lem v h)
      (elim (load-IsEnded (IsFrom make) make.new_metadata
        (make.new_table (codes "blocked_addresses")) (make.new_table (codes "cris_props"))
        (make.new_table (codes "admins")) (make.new_table (codes "um_user")) v (λ e p. inl p)
        (λ e p. inr (_, p)) (λ e p. inr (_, p)) (λ e p. inr (_, p)) (λ e p. inr (_, p))) [
          | inl p ↦ inl (v.made, p)
          | inr (e, p, f, u) ↦ inr (e, p, f, u ∙ h)
        ])

-- The calls, one after the other, each with how the constructors would end.
abbrev pub run : List (Getter × Constructors) → Variables → Variables
run [] v = v
run ((g, make) ∷ calls) v = run calls (get make g v).1

get_ok :
    (make : Constructors) (g : Getter) (v : Variables) (m : ℕ)
    → ensure_loaded make v ≡ (ok tt, loaded m)
    → get make g v ≡ (ok (item g m), loaded m)
unfolding get_blocked_table get_props_table get_admins_table get_user_table get_metadata
get_ok make blocked v m h = rw h refl
get_ok make props v m h = rw h refl
get_ok make admins v m h = rw h refl
get_ok make user v m h = rw h refl
get_ok make metadata v m h = rw h refl

get_raised :
    (make : Constructors) (g : Getter) (v : Variables) (e : Exn)
    → (ensure_loaded make v).0 ≡ raised e
    → get make g v ≡ (raised e, (ensure_loaded make v).1)
unfolding get_blocked_table get_props_table get_admins_table get_user_table get_metadata
get_raised make blocked v e h = rw h refl
get_raised make props v e h = rw h refl
get_raised make admins v e h = rw h refl
get_raised make user v e h = rw h refl
get_raised make metadata v e h = rw h refl

get-loaded :
    (make : Constructors) (g : Getter) (m : ℕ) → get make g (loaded m) ≡ (ok (item g m), loaded m)
get-loaded make g m = get_ok make g (loaded m) m (unfold ensure_loaded in refl)

get-IsCoherent :
    (make : Constructors) (g : Getter) (v : Variables) → IsCoherent v → IsCoherent (get make g v).1
get-IsCoherent make g v h = elim (ensure_loaded-IsLoad make v h) [
  | inl (m, p) ↦ inr (m, ap (λ x. x.1) (get_ok make g v m p))
  | inr (e, p, f, u) ↦ inl (ap (λ x. x.1.user_table) (get_raised make g v e p) ∙ u)
]

run-IsCoherent :
    (calls : List (Getter × Constructors)) (v : Variables) → IsCoherent v → IsCoherent (run calls v)
run-IsCoherent [] v h = h
run-IsCoherent ((g, make) ∷ calls) v h =
    run-IsCoherent calls (get make g v).1 (get-IsCoherent make g v h)

run-loaded : (calls : List (Getter × Constructors)) (m : ℕ) → run calls (loaded m) ≡ loaded m
run-loaded [] m = refl
run-loaded ((g, make) ∷ calls) m =
    ap (λ x. run calls x.1) (get-loaded make g m) ∙ run-loaded calls m

-- A getter that is called after any others, however often a constructor raised before, raises just
-- what a constructor of its own call raises, and never one of the errors for a table or for metadata
-- that is not initialized; or it returns its table, of a `MetaData` to which every other table
-- belongs too, and whatever calls follow, every getter then returns the tables of this `MetaData`.
pub get-OneMetadata :
    (calls : List (Getter × Constructors)) (make : Constructors) (g : Getter)
    → ((e : Exn) × ((get make g (run calls not_loaded)).0 ≡ raised e) × IsFrom make e)
      ⊎ ((m : ℕ) × ((get make g (run calls not_loaded)).0 ≡ ok (item g m))
          × ((later : List (Getter × Constructors)) (make' : Constructors) (h : Getter)
              → (get make' h (run later (get make g (run calls not_loaded)).1)).0 ≡ ok (item h m)))
get-OneMetadata calls make g =
    elim (ensure_loaded-IsLoad make (run calls not_loaded)
      (run-IsCoherent calls not_loaded (inl refl))) [
        | inl (m, p) ↦
            let q = get_ok make g (run calls not_loaded) m p in
            inr (
              m,
              ap (λ x. x.0) q,
              λ later make' h.
                  ap (λ x. (get make' h (run later x.1)).0) q
                  ∙ ap (λ v. (get make' h v).0) (run-loaded later m)
                  ∙ ap (λ x. x.0) (get-loaded make' h m),
            )
        | inr (e, p, f, u) ↦
            inl (e, ap (λ x. x.0) (get_raised make g (run calls not_loaded) e p), f)
      ]
