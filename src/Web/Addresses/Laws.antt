-- ===== src/Web/Addresses/Laws.antt =====
-- What the three handlers that change the table do, on a table that answers.
use postfixblocker.Prelude.{
  ℕ, ◌≡◌, refl, sym, ap, Bool, true, false, not, ◌&&◌, Option, none, some, List, [], ◌∷◌, ◌++◌, map,
  arith, eqb, if◌then◌else◌, or_else, keep, length, any, Bool-cases, append-nil, inl, inr,
}
use postfixblocker.Text.{Text, codes, strip, contains, lower, starts_with}
use postfixblocker.Text.Decimal.{ℤ, parse_int}
use postfixblocker.Exec.{Outcome, ok, raised}
use postfixblocker.Web.Json.{Fields, bool, str, obj, get_field, get_or, truthy}
use postfixblocker.Web.Http.{Response, status}
use postfixblocker.Web.Auth.{Env, is_unset, is_auth_required}
use postfixblocker.Web.Addresses.{
  Updates, Blocked, Api, not_ready, is_conflict, not_found, collect_updates, has_updates, signal,
  notify_blocker_refresh, insert_address, add_fields, add_address, delete_address, update_row,
  update_fields, update_address,
}

pub record Address : Type 0 where
  pub id : ℕ
  pub pattern : Text
  pub is_regex : Bool
  pub test_mode : Bool

-- A row after `update_address`.
abbrev pub updated : Updates → Address → Address
updated u a = record a {
  pattern = or_else u.pattern a.pattern;
  is_regex = or_else u.is_regex a.is_regex;
  test_mode = or_else u.test_mode a.test_mode;
}

-- The row with some key, updated, and the other rows.
abbrev pub update_where : ℕ → Updates → Address → Address
update_where k u a = if eqb a.id k then updated u a else a

-- What is asked of a table that answers: its rows, and what the three statements do to them.
pub record IsBlocked (b : Blocked) : Type 0 where
  pub rows : b.Db → List Address
  pub next_id : b.Db → ℕ
  pub insert_ok : (p : Text) (r t : Bool) (s : b.Db) → (b.insert (str p) r (some t) s).0 ≡ ok tt
  pub insert_rows :
      (p : Text) (r t : Bool) (s : b.Db)
      → rows (b.insert (str p) r (some t) s).1
        ≡ rows s ++ record { id = next_id s; pattern = p; is_regex = r; test_mode = t } ∷ []
  pub delete_ok : (k : ℕ) (s : b.Db) → (b.delete k s).0 ≡ ok tt
  pub delete_rows :
      (k : ℕ) (s : b.Db) → rows (b.delete k s).1 ≡ keep (λ a. not (eqb a.id k)) (rows s)
  pub update_ok :
      (k : ℕ) (u : Updates) (s : b.Db)
      → (b.update k u s).0 ≡ ok (length (keep (λ a. eqb a.id k) (rows s)))
  pub update_rows :
      (k : ℕ) (u : Updates) (s : b.Db) → rows (b.update k u s).1 ≡ map (update_where k u) (rows s)

any-length : {A : Type 0} (p : A → Bool) (xs : List A) → any p xs ≡ not (eqb (length (keep p xs)) 0)
any-length p [] = refl
any-length p (x ∷ xs) = ground (arith, any-length p xs)

pub notify_blocker_refresh-ok :
    (b : Blocked) (env : Env) (content : Text) (w : Api b env)
    → notify_blocker_refresh b env (ok content) w
      ≡ (ok tt, signal b env (parse_int (strip content)) w)
unfolding notify_blocker_refresh
notify_blocker_refresh-ok b env content w = refl

module _ (b : Blocked) (laws : IsBlocked b) (env : Env) where
  open b use {Db}
  open laws use {
    rows, next_id, insert_ok, insert_rows, delete_ok, delete_rows, update_ok, update_rows,
  }

  -- The client may call the handlers, and the database is ready.
  pub record IsAllowed (ready : Option Bool) (w : Api b env) : Type 0 where
    pub allowed : (is_auth_required env && is_unset w.session.admin_user) ≡ false
    pub is_ready : not_ready ready ≡ false

  abbrev pub pid_list : Option ℤ → List ℤ
  pid_list none = []
  pid_list (some pid) = pid ∷ []

  -- The processes that a request signals, on how reading the PID file ends.
  abbrev pub signalled : Outcome Text → List ℤ
  signalled (raised e) = []
  signalled (ok content) = pid_list (parse_int (strip content))

  signal_lem :
      (o : Option ℤ) (w : Api b env)
      → signal b env o w ≡ record w { signals = w.signals ++ pid_list o }
  signal_lem none w = ap (λ l. record w { signals = l }) (sym (append-nil w.signals))
  signal_lem (some pid) w = refl

  notify_lem :
      (pid : Outcome Text) (w : Api b env)
      → notify_blocker_refresh b env pid w
        ≡ (ok tt, record w { signals = w.signals ++ signalled pid })
  unfolding notify_blocker_refresh
  notify_lem (raised e) w = ap (λ l. (ok tt, record w { signals = l })) (sym (append-nil w.signals))
  notify_lem (ok content) w = ap (λ x. (ok tt, x)) (signal_lem (parse_int (strip content)) w)

  -- What a request does: the status of the reply, the rows behind it, and the processes signalled.
  pub record Did (r : Outcome Response × Api b env) (code : ℕ) (after : List Address)
      (signals : List ℤ) : Type 0 where
    pub replied : status r.0 ≡ code
    pub left : rows r.1.db ≡ after
    pub sent : r.1.signals ≡ signals

  -- A deletion is answered by 200, leaves exactly the rows with another id, and signals the service.
  pub delete_address-rows :
      (ready : Option Bool) (pid : Outcome Text) (k : ℕ) (w : Api b env)
      → IsAllowed ready w
      → Did
          (delete_address b env ready pid k w)
          200
          (keep (λ a. not (eqb a.id k)) (rows w.db))
          (w.signals ++ signalled pid)
  unfolding delete_address
  delete_address-rows ready pid k w h =
      rw
        (
          h.allowed,
          h.is_ready,
          delete_ok k w.db,
          notify_lem pid (record w { db = (b.delete k w.db).1 }),
        )
        (record { replied = refl; left = delete_rows k w.db; sent = refl })

  insert_address-ok :
      (p : Text) (r t : Bool) (s : Db)
      → insert_address b env (str p) r t s ≡ (ok tt, (b.insert (str p) r (some t) s).1)
  unfolding insert_address
  insert_address-ok p r t s = rw (insert_ok p r t s) refl

  -- For a client that may call the route, a database that is ready, a table that answers, and a body
  -- with a pattern that is a text and not empty, the reply is 201: one row with the pattern is put
  -- behind the others, for a literal where `is_regex` is missing and in test mode where `test_mode`
  -- is missing, and the service is signalled where its PID file reads as a number.
  pub add_address-rows :
      (ready : Option Bool) (pid : Outcome Text) (fields : Fields) (c : ℕ) (p : Text)
      (w : Api b env)
      → IsAllowed ready w
      → get_field (codes "pattern") fields ≡ some (str (c ∷ p))
      → Did
          (add_address b env ready pid (some (obj fields)) w)
          201
          (rows w.db
            ++ record {
              id = next_id w.db;
              pattern = c ∷ p;
              is_regex = truthy (get_or (get_field (codes "is_regex") fields) (bool false));
              test_mode = truthy (get_or (get_field (codes "test_mode") fields) (bool true));
            }
              ∷ [])
          (w.signals ++ signalled pid)
  unfolding add_address add_fields
  add_address-rows ready pid fields c p w h e =
      let r = truthy (get_or (get_field (codes "is_regex") fields) (bool false)) in
      let t = truthy (get_or (get_field (codes "test_mode") fields) (bool true)) in
      rw
        (
          h.allowed,
          h.is_ready,
          e,
          insert_address-ok (c ∷ p) r t w.db,
          notify_lem pid (record w { db = (b.insert (str (c ∷ p)) r (some t) w.db).1 }),
        )
        (record { replied = refl; left = insert_rows (c ∷ p) r t w.db; sent = refl })

  update_row-ok :
      (k : ℕ) (u : Updates) (s : Db)
      → eqb (length (keep (λ a. eqb a.id k) (rows s))) 0 ≡ false
      → update_row b env k u s ≡ (ok tt, (b.update k u s).1)
  unfolding update_row
  update_row-ok k u s found = rw (update_ok k u s, found) refl

  update_row-missing :
      (k : ℕ) (u : Updates) (s : Db)
      → eqb (length (keep (λ a. eqb a.id k) (rows s))) 0 ≡ true
      → update_row b env k u s ≡ (raised not_found, s)
  unfolding update_row is_conflict lower contains starts_with
  update_row-missing k u s none_found = rw (update_ok k u s, none_found) refl

  -- An update for a body whose updates are collected.
  pub update_address-collected :
      (ready : Option Bool) (pid : Outcome Text) (k : ℕ) (fields : Fields) (u : Updates)
      (w : Api b env)
      → IsAllowed ready w
      → collect_updates fields ≡ ok u
      → has_updates u ≡ true
      → (if any (λ a. eqb a.id k) (rows w.db)
          then Did
              (update_address b env ready pid k (some (obj fields)) w)
              200
              (map (update_where k u) (rows w.db))
              (w.signals ++ signalled pid)
          else Did
              (update_address b env ready pid k (some (obj fields)) w)
              404
              (rows w.db)
              w.signals)
  unfolding update_address update_fields
  update_address-collected ready pid k fields u w h e has =
      rw (h.allowed, h.is_ready, e, has, any-length (λ a. eqb a.id k) (rows w.db))
        (elim (Bool-cases (eqb (length (keep (λ a. eqb a.id k) (rows w.db))) 0)) [
          | inl none_found ↦
              rw (none_found, update_row-missing k u w.db none_found)
                (record { replied = refl; left = refl; sent = refl })
          | inr found ↦
              rw
                (
                  found,
                  update_row-ok k u w.db found,
                  notify_lem pid (record w { db = (b.update k u w.db).1 }),
                )
                (record { replied = refl; left = update_rows k u w.db; sent = refl })
        ])
