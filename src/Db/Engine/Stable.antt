-- ===== src/Db/Engine/Stable.antt =====
-- One engine for the process, and one for each test.
use postfixblocker.Prelude.{
  ℕ, ◌≡◌, refl, sym, ap, ◌∙◌, Option, none, some, [], ◌∷◌, ◌++◌, length, Option-cases, inl, inr,
}
use postfixblocker.Text.{Text, ==_self}
use postfixblocker.Exec.{Exn, Outcome, ok, raised, handle_tt}
use postfixblocker.Db.Table.{lookup}
use postfixblocker.Db.Engine.{
  Variables, Caches, Ends, user_engine_call, ensure_um_table_exists, set_to, compute_um_db_url,
  create_engine, keep_engine, cached, new_engine, get_user_engine,
}

module _ (ends : Ends) where
  -- The attempt to create the table leaves the caches.
  abbrev tried : ℕ → Caches → Caches
  tried eng c = (ensure_um_table_exists ends eng c).1

  ensure_um_table_exists-ok :
      (eng : ℕ) (c : Caches) → ensure_um_table_exists ends eng c ≡ (ok tt, tried eng c)
  unfolding ensure_um_table_exists
  ensure_um_table_exists-ok eng c = handle_tt _ ∙ ap (λ y. (ok tt, y.1)) (sym (handle_tt _))

  cached-keep_engine :
      (key : Option Text) (eng : ℕ) (c : Caches)
      → cached ends key (keep_engine ends key eng c).1 ≡ some eng
  cached-keep_engine none eng c = refl
  cached-keep_engine (some key) eng c = unfold lookup in rw (==_self key) refl

  keep_engine-ok :
      (key : Option Text) (eng : ℕ) (c : Caches) → (keep_engine ends key eng c).0 ≡ ok eng
  keep_engine-ok none eng c = refl
  keep_engine-ok (some key) eng c = refl

  -- The caches with a new engine.
  abbrev after : Variables → Caches → Caches
  after v c =
      tried (length c.made)
        (record c { made = c.made ++ user_engine_call (compute_um_db_url v) ∷ [] })

  get_cached :
      (v : Variables) (c : Caches) (old : ℕ)
      → cached ends (set_to v.current_test) c ≡ some old
      → get_user_engine ends v c ≡ (ok old, c)
  unfolding get_user_engine
  get_cached v c old e = rw e refl

  get_made :
      (v : Variables) (c : Caches)
      → cached ends (set_to v.current_test) c ≡ none
      → ends.refuses (compute_um_db_url v) ≡ none
      → get_user_engine ends v c
        ≡ keep_engine ends (set_to v.current_test) (length c.made) (after v c)
  unfolding get_user_engine new_engine create_engine
  get_made v c e r =
      rw
        (
          e,
          r,
          ensure_um_table_exists-ok (length c.made)
              (record c { made = c.made ++ user_engine_call (compute_um_db_url v) ∷ [] }),
        )
        refl

  get_refused :
      (v : Variables) (c : Caches) (x : Exn)
      → cached ends (set_to v.current_test) c ≡ none
      → ends.refuses (compute_um_db_url v) ≡ some x
      → get_user_engine ends v c ≡ (raised x, c)
  unfolding get_user_engine new_engine create_engine
  get_refused v c x e r = rw (e, r) refl

  ok_inj : {a b : ℕ} (r : Outcome ℕ × Caches) → r.0 ≡ ok a → r.0 ≡ ok b → a ≡ b
  ok_inj r h k = cc

  cached-get_user_engine :
      (v : Variables) (c : Caches) (eng : ℕ)
      → (get_user_engine ends v c).0 ≡ ok eng
      → cached ends (set_to v.current_test) (get_user_engine ends v c).1 ≡ some eng
  cached-get_user_engine v c eng h = elim (Option-cases (cached ends (set_to v.current_test) c)) [
    | inr (old, e) ↦
        let same : old ≡ eng =
          ok_inj (get_user_engine ends v c) (ap (λ r. r.0) (get_cached v c old e)) h in
        rw (get_cached v c old e) (e ∙ ap some same)
    | inl e ↦ elim (Option-cases (ends.refuses (compute_um_db_url v))) [
      | inr (x, r) ↦
          let bad : raised x ≡ ok eng = sym (ap (λ r. r.0) (get_refused v c x e r)) ∙ h in cc
      | inl r ↦
          let same : length c.made ≡ eng =
            ok_inj (get_user_engine ends v c)
              (ap (λ r. r.0) (get_made v c e r)
                ∙ keep_engine-ok (set_to v.current_test) (length c.made) (after v c))
              h in
          rw (get_made v c e r)
            (cached-keep_engine (set_to v.current_test) (length c.made) (after v c) ∙ ap some same)
    ]
  ]

  -- Once `get_user_engine` has returned an engine, it returns the same one in every later call of the
  -- same test, or outside tests, and makes no further engine, whatever UM_DB_URL and UM_DB_PATH are
  -- by then.
  pub get_user_engine-get_user_engine :
      (v later : Variables) (c : Caches) (eng : ℕ)
      → (get_user_engine ends v c).0 ≡ ok eng
      → set_to later.current_test ≡ set_to v.current_test
      → get_user_engine ends later (get_user_engine ends v c).1
        ≡ (ok eng, (get_user_engine ends v c).1)
  get_user_engine-get_user_engine v later c eng h same =
      get_cached later (get_user_engine ends v c).1 eng (rw same (cached-get_user_engine v c eng h))
