-- ===== src/Web/Addresses/Memory.antt =====
-- A table of addresses in memory, which answers every statement.
use postfixblocker.Prelude.{
  ℕ, suc, max, refl, Bool, true, not, Option, none, some, List, [], ◌∷◌, ◌++◌, map, eqb, keep,
  length,
}
use postfixblocker.Text.{codes}
use postfixblocker.Exec.{type_error, ok, raised, Exec}
use postfixblocker.Web.Json.{Json, str}
use postfixblocker.Web.Addresses.{Blocked}
use postfixblocker.Web.Addresses.Laws.{Address, update_where, IsBlocked}

abbrev pub next : List Address → ℕ
next [] = 1
next (a ∷ l) = max (suc a.id) (next l)

abbrev pub put : Json → Bool → Option Bool → Exec (List Address) (Unit {0})
put (str p) r (some t) l =
    (ok tt, l ++ record { id = next l; pattern = p; is_regex = r; test_mode = t } ∷ [])
put (str p) r none l =
    (ok tt, l ++ record { id = next l; pattern = p; is_regex = r; test_mode = true } ∷ [])
put _ r t l = (raised (record { kind = type_error; message = codes "type not supported" }), l)

abbrev pub table : Blocked
table = record {
  Db = List Address;
  insert = put;
  delete = λ k l. (ok tt, keep (λ a. not (eqb a.id k)) l);
  update = λ k u l. (ok (length (keep (λ a. eqb a.id k) l)), map (update_where k u) l);
}

abbrev pub table-IsBlocked : IsBlocked table
table-IsBlocked = record {
  rows = λ l. l;
  next_id = next;
  insert_ok = λ p r t s. refl;
  insert_rows = λ p r t s. refl;
  delete_ok = λ k s. refl;
  delete_rows = λ k s. refl;
  update_ok = λ k u s. refl;
  update_rows = λ k u s. refl;
}
