-- ===== src/Web/App/Factory/Settings.antt =====
-- What an app is set to, whatever overrides it is created with.
use postfixblocker.Prelude.{
  ◌≡◌, refl, sym, ◌∙◌, ap, none, Bool, true, false, Option, some, List, [], ◌∷◌, ◌++◌, ◌&&◌, arith,
  any, if◌then◌else◌, or_else, Bool-cases, inl, inr,
}
use postfixblocker.Text.{Text, codes, ◌==◌, ==_iff}
use postfixblocker.Exec.{Outcome, ok, raised, Outcome-cases}
use postfixblocker.Db.Table.{lookup}
use postfixblocker.Web.App.Factory.{
  Setting, absent, ensure_db_ready, flag, text, nothing, other_object, dict, update, Flask,
  Overrides, Surroundings, put, apply_overrides, configure_session, setup_db_lazy,
  maybe_install_test_reset, create_app,
}

lookup-put :
    (k : Text) (v : Setting) (l : List (Text × Setting)) (j : Text)
    → lookup (put k v l) j ≡ (if k == j then some v else lookup l j)
unfolding lookup put
lookup-put k v [] j = ground arith
lookup-put k v ((i, u) ∷ l) j =
    ground (arith, lookup-put k v l j, ==_iff i k, ==_iff i j, ==_iff k j)

-- The keys that the factory sets itself.
abbrev pub factory_keys : List Text
factory_keys =
    codes "db_engine"
    ∷ codes "db_ready"
    ∷ codes "ensure_db_ready"
    ∷ codes "SESSION_COOKIE_HTTPONLY"
    ∷ codes "SESSION_COOKIE_SAMESITE"
    ∷ codes "SESSION_COOKIE_SECURE"
    ∷ codes "SECRET_KEY"
    ∷ []

abbrev pub blueprints_of : Bool → List Text
blueprints_of test =
    codes "addresses" ∷ codes "logs" ∷ codes "auth" ∷ (if test then codes "test_reset" ∷ [] else [])

abbrev can_import : Outcome (Unit {0}) → Bool
can_import (ok _) = true
can_import (raised e) = false

abbrev pub has_test_routes : Surroundings → Bool
has_test_routes env =
    or_else env.test_reset_enable (codes "0") == codes "1" && can_import env.test_routes

-- The items of the overrides that are a dict.
abbrev pub items_of : Overrides → List (Text × Setting)
items_of (dict items) = items
items_of nothing = []
items_of other_object = []

abbrev pub first_of : Option Setting → Option Setting → Option Setting
first_of (some v) other = some v
first_of none other = other

-- The value of the last item with some key.
abbrev pub last_value : List (Text × Setting) → Text → Option Setting
last_value [] k = none
last_value ((j, v) ∷ items) k = first_of (last_value items k) (if j == k then some v else none)

-- An app that is as the factory makes it.
pub record IsNew (env : Surroundings) (defaults : List (Text × Setting)) (overrides : Overrides)
    (app : Flask) : Type 0 where
  pub db_engine : lookup app.config (codes "db_engine") ≡ some absent
  pub db_ready : lookup app.config (codes "db_ready") ≡ some (flag false)
  pub ensure : lookup app.config (codes "ensure_db_ready") ≡ some ensure_db_ready
  pub http_only : lookup app.config (codes "SESSION_COOKIE_HTTPONLY") ≡ some (flag true)
  pub same_site : lookup app.config (codes "SESSION_COOKIE_SAMESITE") ≡ some (text (codes "Lax"))
  pub secure : lookup app.config (codes "SESSION_COOKIE_SECURE") ≡ some (flag true)
  pub secret :
      lookup app.config (codes "SECRET_KEY")
      ≡ some (text (or_else env.session_secret (codes "dev-secret-change-me")))
  pub blueprints : app.blueprints ≡ blueprints_of (has_test_routes env)
  pub others :
      (k : Text)
      → any (λ key. key == k) factory_keys ≡ false
      → lookup app.config k ≡ first_of (last_value (items_of overrides) k) (lookup defaults k)

-- The configuration before the blueprints.
abbrev configured : Surroundings → List (Text × Setting) → Overrides → Flask
configured env defaults overrides = setup_db_lazy (
    configure_session env (record { config = apply_overrides overrides defaults; blueprints = [] }))

configured-lookup :
    (env : Surroundings) (defaults : List (Text × Setting)) (overrides : Overrides) (k : Text)
    → lookup (configured env defaults overrides).config k ≡ (
        if codes "ensure_db_ready" == k
        then some ensure_db_ready
        else if codes "db_ready" == k
        then some (flag false)
        else if codes "db_engine" == k
        then some absent
        else if codes "SESSION_COOKIE_SECURE" == k
        then some (flag true)
        else if codes "SESSION_COOKIE_SAMESITE" == k
        then some (text (codes "Lax"))
        else if codes "SESSION_COOKIE_HTTPONLY" == k
        then some (flag true)
        else if codes "SECRET_KEY" == k
        then some (text (or_else env.session_secret (codes "dev-secret-change-me")))
        else lookup (apply_overrides overrides defaults) k)
unfolding configure_session setup_db_lazy
configured-lookup env defaults overrides k =
    rw
      (
        lookup-put (codes "ensure_db_ready") ensure_db_ready _ k,
        lookup-put (codes "db_ready") _ _ k,
        lookup-put (codes "db_engine") _ _ k,
        lookup-put (codes "SESSION_COOKIE_SECURE") _ _ k,
        lookup-put (codes "SESSION_COOKIE_SAMESITE") _ _ k,
        lookup-put (codes "SESSION_COOKIE_HTTPONLY") _ _ k,
        lookup-put (codes "SECRET_KEY") _ _ k,
      )
      refl

with_routes-config :
    (env : Surroundings) (app : Flask) → (maybe_install_test_reset env app).config ≡ app.config
unfolding maybe_install_test_reset
with_routes-config env app =
    elim (Bool-cases (or_else env.test_reset_enable (codes "0") == codes "1")) [
      | inr e ↦ rw e refl
      | inl e ↦ elim (Outcome-cases env.test_routes) [
        | inl (a, h) ↦ rw (e, h) refl
        | inr (x, h) ↦ rw (e, h) refl
      ]
    ]

with_routes-blueprints :
    (env : Surroundings) (app : Flask)
    → app.blueprints ≡ blueprints_of false
    → (maybe_install_test_reset env app).blueprints ≡ blueprints_of (has_test_routes env)
unfolding maybe_install_test_reset
with_routes-blueprints env app b =
    elim (Bool-cases (or_else env.test_reset_enable (codes "0") == codes "1")) [
      | inr e ↦ rw e b
      | inl e ↦ elim (Outcome-cases env.test_routes) [
        | inl (a, h) ↦ rw (e, h) (ap (λ l. l ++ codes "test_reset" ∷ []) b)
        | inr (x, h) ↦ rw (e, h) b
      ]
    ]

first_of_assoc : (a b c : Option Setting) → first_of (first_of a b) c ≡ first_of a (first_of b c)
first_of_assoc none b c = refl
first_of_assoc (some v) b c = refl

first_of-if :
    (b : Bool) (v : Setting) (o : Option Setting)
    → (if b then some v else o) ≡ first_of (if b then some v else none) o
first_of-if true v o = refl
first_of-if false v o = refl

update-last_value :
    (items l : List (Text × Setting)) (k : Text)
    → lookup (update items l) k ≡ first_of (last_value items k) (lookup l k)
update-last_value [] l k = refl
update-last_value ((j, v) ∷ items) l k =
    update-last_value items (put j v l) k
    ∙ ap (first_of (last_value items k)) (lookup-put j v l k ∙ first_of-if (j == k) v (lookup l k))
    ∙ sym (first_of_assoc (last_value items k) (if j == k then some v else none) (lookup l k))

apply_overrides-last_value :
    (overrides : Overrides) (l : List (Text × Setting)) (k : Text)
    → lookup (apply_overrides overrides l) k
      ≡ first_of (last_value (items_of overrides) k) (lookup l k)
apply_overrides-last_value nothing l k = refl
apply_overrides-last_value other_object l k = refl
apply_overrides-last_value (dict items) l k = update-last_value items l k

module _ (env : Surroundings) (defaults : List (Text × Setting)) (overrides : Overrides) where
  created-lookup :
      (k : Text)
      → lookup (create_app env defaults overrides).config k
        ≡ lookup (configured env defaults overrides).config k
  unfolding create_app
  created-lookup k = ap (λ l. lookup l k) (with_routes-config env _)

  created-factory :
      (k : Text) {v : Option Setting}
      → lookup (configured env defaults overrides).config k ≡ v
      → lookup (create_app env defaults overrides).config k ≡ v
  created-factory k e = created-lookup k ∙ e

  other_key :
      (k : Text)
      → any (λ key. key == k) factory_keys ≡ false
      → lookup (configured env defaults overrides).config k
        ≡ lookup (apply_overrides overrides defaults) k
  other_key k h = configured-lookup env defaults overrides k ∙ ground (arith, h)

  -- Whatever overrides the argument holds, and whatever Flask starts with: a new app has no engine
  -- and does not count as ready, its session cookie is for https and for requests of the same site
  -- only and not for scripts, and its secret is that of the environment or the default one. The test
  -- routes are there exactly if TEST_RESET_ENABLE is 1 and they can be imported. Every key that the
  -- factory does not set itself has the last value that a dict of overrides gives it, or else the one
  -- that Flask starts with.
  pub create_app-IsNew : IsNew env defaults overrides (create_app env defaults overrides)
  unfolding create_app ◌==◌
  create_app-IsNew = record {
    db_engine = created-factory _ (configured-lookup env defaults overrides _);
    db_ready = created-factory _ (configured-lookup env defaults overrides _);
    ensure = created-factory _ (configured-lookup env defaults overrides _);
    http_only = created-factory _ (configured-lookup env defaults overrides _);
    same_site = created-factory _ (configured-lookup env defaults overrides _);
    secure = created-factory _ (configured-lookup env defaults overrides _);
    secret = created-factory _ (configured-lookup env defaults overrides _);
    blueprints = with_routes-blueprints env _ (unfold setup_db_lazy configure_session in refl);
    others =
        λ k h. created-lookup k ∙ other_key k h ∙ apply_overrides-last_value overrides defaults k;
  }
