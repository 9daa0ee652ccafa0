-- ===== src/Web/TestReset/Seeded.antt =====
-- What a reset leaves.
use postfixblocker.Prelude.{
  suc, ◌≡◌, refl, sym, ap, ◌∙◌, Bool, true, false, Option, List, [], ◌∷◌, ◌++◌, append_assoc,
  append-nil, length, subst,
}
use postfixblocker.Text.{Text, codes}
use postfixblocker.Exec.{Outcome, ok, Exec, continue}
use postfixblocker.Postfix.Maps.{BlockEntry}
use postfixblocker.Web.Json.{
  Json, Items, Fields, bool, arr, obj, nil, cons, get_field, get_or, truthy,
}
use postfixblocker.Web.Http.{Response}
use postfixblocker.Web.Addresses.{not_ready}
use postfixblocker.Web.TestReset.{
  Prop, Tables, is_enabled, when_enabled, seeds_of, length_items, reset_response, seed_pattern,
  insert_seed, seed_one, seed_items, seed_all, reset_tables, reset_state,
}

-- What is asked of tables that answer: their rows, and what the statements do to them.
pub record IsTables (t : Tables) : Type 0 where
  pub blocked : t.Db → List BlockEntry
  pub props : t.Db → List Prop
  pub delete_blocked_ok : (s : t.Db) → (t.delete_blocked s).0 ≡ ok (length (blocked s))
  pub delete_blocked_rows :
      (s : t.Db) → (blocked (t.delete_blocked s).1 ≡ []) × (props (t.delete_blocked s).1 ≡ props s)
  pub delete_props_ok : (s : t.Db) → (t.delete_props s).0 ≡ ok (length (props s))
  pub delete_props_rows :
      (s : t.Db) → (blocked (t.delete_props s).1 ≡ blocked s) × (props (t.delete_props s).1 ≡ [])
  pub insert_ok : (p : Text) (r m : Bool) (s : t.Db) → (t.insert p r m s).0 ≡ ok tt
  pub insert_rows :
      (p : Text) (r m : Bool) (s : t.Db)
      → (blocked (t.insert p r m s).1
          ≡ blocked s ++ record { pattern = p; is_regex = r; test_mode = m } ∷ [])
        × (props (t.insert p r m s).1 ≡ props s)
  pub select_blocked_lem : (s : t.Db) → t.select_blocked s ≡ ok (blocked s)
  pub select_props_lem : (s : t.Db) → t.select_props s ≡ ok (props s)

-- A list of dicts as JSON.
abbrev pub dicts : List Fields → Items
dicts [] = nil
dicts (f ∷ fs) = cons (obj f) (dicts fs)

-- The entry of a seed, where its pattern is not blank.
abbrev pub entry_unless_blank : Text → Fields → List BlockEntry
entry_unless_blank [] f = []
entry_unless_blank (c ∷ p) f =
    record {
      pattern = c ∷ p;
      is_regex = truthy (get_or (get_field (codes "is_regex") f) (bool false));
      test_mode = truthy (get_or (get_field (codes "test_mode") f) (bool true));
    }
    ∷ []

length_items-dicts : (fs : List Fields) → length_items (dicts fs) ≡ length fs
length_items-dicts [] = refl
length_items-dicts (f ∷ fs) = ap suc (length_items-dicts fs)

module _ (t : Tables) (laws : IsTables t) (repr : Json → Text) where
  open t use {Db}
  open laws use {
    blocked, props, delete_blocked_ok, delete_blocked_rows, delete_props_ok, delete_props_rows,
    insert_ok, insert_rows,
  }

  abbrev pub seed_entries : List Fields → List BlockEntry
  seed_entries [] = []
  seed_entries (f ∷ fs) = entry_unless_blank (seed_pattern t repr f) f ++ seed_entries fs

  -- A step that raises nothing, adds entries to the table, and leaves the properties.
  pub record Added (s : Db) (es : List BlockEntry) (r : Outcome (Unit {0}) × Db) : Type 0 where
    pub done : r.0 ≡ ok tt
    pub rows : blocked r.1 ≡ blocked s ++ es
    pub kept : props r.1 ≡ props s

  insert_seed-Added :
      (p : Text) (f : Fields) (s : Db) → Added s (entry_unless_blank p f) (insert_seed t repr p f s)
  insert_seed-Added [] f s = record {
    done = refl;
    rows = sym (append-nil (blocked s));
    kept = refl;
  }
  insert_seed-Added (c ∷ p) f s =
      let r = truthy (get_or (get_field (codes "is_regex") f) (bool false)) in
      let m = truthy (get_or (get_field (codes "test_mode") f) (bool true)) in
      record {
        done = insert_ok (c ∷ p) r m s;
        rows = (insert_rows (c ∷ p) r m s).0;
        kept = (insert_rows (c ∷ p) r m s).1;
      }

  then_Added :
      (s : Db) (es fs : List BlockEntry) (x : Outcome (Unit {0}) × Db) (next : Exec Db (Unit {0}))
      → Added s es x
      → ((d : Db) → Added d fs (next d))
      → Added s (es ++ fs) (continue (λ _. next) x)
  then_Added s es fs x next first rest =
      subst (Added s (es ++ fs)) (ap (λ r. continue (λ _. next) (r, x.1)) (sym first.done))
        (record {
          done = (rest x.1).done;
          rows = (rest x.1).rows ∙ ap (λ l. l ++ fs) first.rows ∙ append_assoc (blocked s) es fs;
          kept = (rest x.1).kept ∙ first.kept;
        })

  seed_items-Added :
      (fs : List Fields) (s : Db) → Added s (seed_entries fs) (seed_items t repr (dicts fs) s)
  unfolding seed_items seed_one
  seed_items-Added [] s = record { done = refl; rows = sym (append-nil (blocked s)); kept = refl }
  seed_items-Added (f ∷ fs) s =
      then_Added s (entry_unless_blank (seed_pattern t repr f) f) (seed_entries fs) _ _
        (insert_seed-Added (seed_pattern t repr f) f s) (seed_items-Added fs)

  -- The reply and what is left.
  pub record Reset (s : Db) (fs : List Fields) (r : Outcome Response × Db) : Type 0 where
    pub replied : r.0 ≡ ok (reset_response (length (blocked s)) (length (props s)) (length fs))
    pub rows : blocked r.1 ≡ seed_entries fs
    pub no_props : props r.1 ≡ []

  abbrev emptied : Db → Db
  emptied s = (t.delete_props (t.delete_blocked s).1).1

  emptied-rows : (s : Db) → (blocked (emptied s) ≡ []) × (props (emptied s) ≡ [])
  emptied-rows s =
      let next = (t.delete_blocked s).1 in
      ((delete_props_rows next).0 ∙ (delete_blocked_rows s).0, (delete_props_rows next).1)

  reset_tables_lem :
      (fs : List Fields) (s : Db)
      → reset_tables t repr (arr (dicts fs)) s
        ≡ (ok (length (blocked s), length (props s)), (seed_items t repr (dicts fs) (emptied s)).1)
  unfolding reset_tables seed_all
  reset_tables_lem fs s =
      rw
        (
          delete_blocked_ok s,
          delete_props_ok (t.delete_blocked s).1,
          (seed_items-Added fs (emptied s)).done,
          (delete_blocked_rows s).1,
        )
        refl

  -- The seeds of a body, and the reply's number of them.
  reset_state_lem :
      (enable : Option Text) (ready : Option Bool) (body : Option Json) (fs : List Fields) (s : Db)
      → is_enabled enable ≡ true
      → not_ready ready ≡ false
      → seeds_of body ≡ ok (arr (dicts fs))
      → reset_state t repr enable ready body s ≡ (
        ok (reset_response (length (blocked s)) (length (props s)) (length fs)),
        (seed_items t repr (dicts fs) (emptied s)).1,
      )
  unfolding reset_state when_enabled
  reset_state_lem enable ready body fs s on up seeds =
      rw (on, up, seeds, reset_tables_lem fs s, length_items-dicts fs) refl

  -- Where the route is enabled and the database is ready, a reset with a list of dicts as seeds replies
  -- the numbers of the rows that were there and the length of that list, and leaves, whatever was
  -- there before, one row for each seed whose pattern is not blank, in order, and no property.
  pub reset_state-Reset :
      (enable : Option Text) (ready : Option Bool) (body : Option Json) (fs : List Fields) (s : Db)
      → is_enabled enable ≡ true
      → not_ready ready ≡ false
      → seeds_of body ≡ ok (arr (dicts fs))
      → Reset s fs (reset_state t repr enable ready body s)
  reset_state-Reset enable ready body fs s on up seeds =
      let added = seed_items-Added fs (emptied s) in
      let (no_rows, no_props) = emptied-rows s in
      subst (Reset s fs) (sym (reset_state_lem enable ready body fs s on up seeds)) (record {
        replied = refl;
        rows = added.rows ∙ ap (λ l. l ++ seed_entries fs) no_rows;
        no_props = added.kept ∙ no_props;
      })
