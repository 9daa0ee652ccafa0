-- ===== src/Pipeline.antt =====
-- The two programs together: postfix_blocker/web/routes_addresses.py changes the table, and
-- postfix_blocker/services/blocker_service.py reads it and writes the map files.
pub mod Levels
mod Tests
use postfixblocker.Prelude.{
  ℕ, suc, ◌+◌, ◌≡◌, refl, ap, ap₂, ◌∙◌, Bool, true, false, Option, none, some, List, [], ◌∷◌, ◌++◌,
  map, eqb, length, length-append, map-append, arith, subst, sym,
}
use postfixblocker.Text.{Text, codes}
use postfixblocker.Text.Decimal.{ℤ}
use postfixblocker.Exec.{Outcome, ok}
use postfixblocker.Postfix.Maps.{BlockEntry, MapName, WriteOutcome, written}
use postfixblocker.Postfix.Control.{Command, Completed}
use postfixblocker.Web.Json.{Fields, bool, str, obj, get_field, get_or, truthy}
use postfixblocker.Web.Auth.{Env}
use postfixblocker.Web.Addresses.{Blocked, Api, add_address}
use postfixblocker.Web.Addresses.Laws.{Address, IsBlocked, IsAllowed, add_address-rows}
use postfixblocker.Blocker.{Row, Service, Seen, fetch_entries, to_entry, to_entries}
use postfixblocker.Blocker.Rounds.{IsWritten}
use postfixblocker.Blocker.Failures.{after}
use postfixblocker.Blocker.Counted.{counted_round, fetch_entries-ok}

-- A row of the table as the service selects it, and the entry that it makes of it.
abbrev pub selected : Address → Row
selected a = record { pattern = a.pattern; is_regex = a.is_regex; test_mode = some a.test_mode }

abbrev pub entry_of : Address → BlockEntry
entry_of a = record { pattern = a.pattern; is_regex = a.is_regex; test_mode = a.test_mode }

-- The queries of a round return these rows, and their number beside some time.
pub record IsSeen (rows : List Address) (ts : Option Text) (seen : Seen) : Type 0 where
  pub fetches : seen.fetched ≡ ok (ok (map selected rows))
  pub counts : seen.marker_row ≡ ok (ts, length rows)

to_entries-selected : (rows : List Address) → to_entries (map selected rows) ≡ map entry_of rows
to_entries-selected [] = refl
to_entries-selected (a ∷ rows) = ap (◌∷◌ (entry_of a)) (to_entries-selected rows)

eqb-suc : {A : Type 0} (l : List A) (x : A) → eqb (length (l ++ x ∷ [])) (length l) ≡ false
eqb-suc l x = ground (arith, length-append l (x ∷ []))

module _ (b : Blocked) (laws : IsBlocked b) (api_env : Env) (hash : List BlockEntry → ℤ)
    (run : Command → Outcome Completed) (attribute : Text → Option (Option ℤ))
    (env : Option Text) where
  open b use {Db}
  open laws use {rows, next_id}

  -- A round that sees one row more than the last one that was applied.
  round-grown :
      (old : List Address) (a : Address) (now : List Address) (s : Service) (last_ts : Text)
      (ts : Option Text) (seen : Seen)
      → now ≡ old ++ a ∷ []
      → s.last_marker ≡ some (last_ts, length old)
      → IsSeen now ts seen
      → ((m : MapName) → seen.disk m ≡ written)
      → IsWritten (map entry_of old ++ entry_of a ∷ []) (after hash run attribute env seen s).files
  round-grown old a now s last_ts ts seen is_now last sees good =
      subst (λ es. IsWritten es (after hash run attribute env seen s).files)
        (to_entries-selected now ∙ ap (map entry_of) is_now ∙ map-append entry_of old (a ∷ []))
        (counted_round hash run attribute env seen s (to_entries (map selected now)) ts last_ts
          (length now) (length old)
          (ap fetch_entries sees.fetches ∙ fetch_entries-ok (map selected now)) sees.counts last
          (ap (λ l. eqb (length l) (length old)) is_now ∙ eqb-suc old a) good)

  -- A pattern, a text that is not empty, that a client who may call the API adds is in the map files
  -- after the next round: if the service last applied the table with as many rows as it had before
  -- the request, and the round's queries return the rows that the request left and its writes
  -- succeed, then the four map files hold exactly the lines of the old rows and of the new pattern,
  -- whatever `hash` returns.
  pub add_address-round :
      (ready : Option Bool) (pid : Outcome Text) (fields : Fields) (c : ℕ) (p : Text)
      (w : Api b api_env)
      → IsAllowed b laws api_env ready w
      → get_field (codes "pattern") fields ≡ some (str (c ∷ p))
      → (s : Service) (last_ts : Text) (ts : Option Text) (seen : Seen)
      → s.last_marker ≡ some (last_ts, length (rows w.db))
      → IsSeen (rows (add_address b api_env ready pid (some (obj fields)) w).1.db) ts seen
      → ((m : MapName) → seen.disk m ≡ written)
      → IsWritten
          (map entry_of (rows w.db)
            ++ record {
              pattern = c ∷ p;
              is_regex = truthy (get_or (get_field (codes "is_regex") fields) (bool false));
              test_mode = truthy (get_or (get_field (codes "test_mode") fields) (bool true));
            }
              ∷ [])
          (after hash run attribute env seen s).files
  add_address-round ready pid fields c p w allowed has_pattern s last_ts ts seen last sees good =
      let did = add_address-rows b laws api_env ready pid fields c p w allowed has_pattern in
      round-grown (rows w.db) _ (rows (add_address b api_env ready pid (some (obj fields)) w).1.db)
        s last_ts ts seen did.left last sees good
