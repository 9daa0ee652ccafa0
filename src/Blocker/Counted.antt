-- ===== src/Blocker/Counted.antt =====
-- A round that finds another number of rows.
use postfixblocker.Prelude.{ℕ, ◌≡◌, refl, true, false, Option, some, List, [], eqb, or_else, arith}
use postfixblocker.Text.{Text}
use postfixblocker.Text.Decimal.{ℤ}
use postfixblocker.Exec.{Outcome, ok}
use postfixblocker.Postfix.Maps.{BlockEntry, MapName, written}
use postfixblocker.Postfix.Maps.Laws.{write_map_files-expected, write_map_files-written}
use postfixblocker.Postfix.Control.{Command, Completed}
use postfixblocker.Blocker.Signature.{sorted}
use postfixblocker.Blocker.{
  Row, to_entries, Service, Seen, fetch_entries, get_change_marker, is_changed,
}
use postfixblocker.Blocker.Rounds.{IsWritten, leveled}
use postfixblocker.Blocker.Failures.{after, differs, applied_round}

pub fetch_entries-ok : (rows : List Row) → fetch_entries (ok (ok rows)) ≡ ok (to_entries rows)
unfolding fetch_entries
fetch_entries-ok rows = refl

is_changed-count :
    (ts last_ts : Text) (n last_n : ℕ) (h : ℤ) (last : Option ℤ)
    → eqb n last_n ≡ false
    → is_changed (some (ts, n)) h (some (last_ts, last_n)) last ≡ true
unfolding is_changed
is_changed-count ts last_ts n last_n h last e = ground arith

module _ (hash : List BlockEntry → ℤ) (run : Command → Outcome Completed)
    (attribute : Text → Option (Option ℤ)) (env : Option Text) where
  counted-differs :
      (seen : Seen) (s : Service) (es : List BlockEntry) (ts : Option Text) (last_ts : Text)
      (n last_n : ℕ)
      → seen.marker_row ≡ ok (ts, n)
      → s.last_marker ≡ some (last_ts, last_n)
      → eqb n last_n ≡ false
      → differs hash run attribute env seen es s ≡ true
  unfolding get_change_marker
  counted-differs seen s es ts last_ts n last_n m l e =
      rw (m, l) (is_changed-count (or_else ts []) last_ts n last_n (hash (sorted es)) s.last_hash e)

  -- Such a round, with a disk that takes every write, brings the four files up to date.
  pub counted_round :
      (seen : Seen) (s : Service) (es : List BlockEntry) (ts : Option Text) (last_ts : Text)
      (n last_n : ℕ)
      → fetch_entries seen.fetched ≡ ok es
      → seen.marker_row ≡ ok (ts, n)
      → s.last_marker ≡ some (last_ts, last_n)
      → eqb n last_n ≡ false
      → ((m : MapName) → seen.disk m ≡ written)
      → IsWritten es (after hash run attribute env seen s).files
  counted_round seen s es ts last_ts n last_n f m l e good k =
      rw
        (applied_round hash run attribute env seen s es f
          (counted-differs seen s es ts last_ts n last_n m l e)
          (write_map_files-written seen.disk es s.files good))
        (write_map_files-expected seen.disk es (leveled hash run attribute env seen s).files k
          (write_map_files-written seen.disk es (leveled hash run attribute env seen s).files good))
