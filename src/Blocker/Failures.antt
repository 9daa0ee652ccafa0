-- ===== src/Blocker/Failures.antt =====
-- Rounds in which a write fails, or in which nothing has changed.
use mathlib.Core.List.{Permᴰ}
use postfixblocker.Prelude.{
  ◌≡◌, refl, ◌∙◌, ◌⊎◌, Bool, true, false, Option, none, some, List, arith, inl, inr,
}
use postfixblocker.Text.{Text, ==_self}
use postfixblocker.Text.Decimal.{ℤ}
use postfixblocker.Exec.{Outcome, ok}
use postfixblocker.Postfix.Maps.{BlockEntry, MapName, WriteOutcome, written, write_map_files}
use postfixblocker.Postfix.Maps.Laws.{write_map_files-expected, write_map_files-written}
use postfixblocker.Postfix.Control.{Command, Completed}
use postfixblocker.Blocker.Signature.{sorted, sorted-Perm}
use postfixblocker.Blocker.{Marker, Service, Seen, fetch_entries, get_change_marker, is_changed}
use postfixblocker.Blocker.Rounds.{
  IsWritten, int_eq_self, apply_dynamic_log_level-keeps, step, leveled, changed, applied, round-ok,
  sync_step-quiet, sync_step-applied, sync_step-failed,
}

-- A marker and a hash that were just remembered are no change.
not-is_changed : (m : Option Marker) (h : ℤ) → is_changed m h m (some h) ≡ false
unfolding is_changed
not-is_changed none h = rw int_eq_self refl
not-is_changed (some (ts, cnt)) h = ground (arith, ==_self ts, int_eq_self h)

not-is_changed_unknown : (h : ℤ) (last : Option Marker) → is_changed none h last (some h) ≡ false
unfolding is_changed
not-is_changed_unknown h last = rw int_eq_self refl

module _ (hash : List BlockEntry → ℤ) (run : Command → Outcome Completed)
    (attribute : Text → Option (Option ℤ)) (env : Option Text) where
  abbrev pub after : Seen → Service → Service
  after = step hash run attribute env

  abbrev pub differs : Seen → List BlockEntry → Service → Bool
  differs = changed hash run attribute env

  leveled-changed :
      (seen : Seen) (es : List BlockEntry) (s : Service)
      → differs seen es (leveled hash run attribute env seen s) ≡ differs seen es s
  leveled-changed seen es s =
      let (lm, lh, _, _) = apply_dynamic_log_level-keeps attribute seen.level s in rw (lm, lh) refl

  -- A round that sees no change leaves the files alone and runs no command.
  quiet_round :
      (seen : Seen) (s : Service) (es : List BlockEntry)
      → fetch_entries seen.fetched ≡ ok es
      → differs seen es s ≡ false
      → ((after seen s).files ≡ s.files) × ((after seen s).commands ≡ s.commands)
  quiet_round seen s es e q =
      let (_, _, lf, lc) = apply_dynamic_log_level-keeps attribute seen.level s in
      rw
        (
          round-ok hash run attribute env seen s es e,
          sync_step-quiet hash run attribute env seen es (leveled hash run attribute env seen s)
              (leveled-changed seen es s ∙ q),
        )
        (lf, lc)

  pub applied_round :
      (seen : Seen) (s : Service) (es : List BlockEntry)
      → fetch_entries seen.fetched ≡ ok es
      → differs seen es s ≡ true
      → (write_map_files seen.disk es s.files).1 ≡ true
      → after seen s
        ≡ applied hash run attribute env seen es (leveled hash run attribute env seen s)
  applied_round seen s es e c good =
      let (_, _, lf, _) = apply_dynamic_log_level-keeps attribute seen.level s in
      rw
        (
          round-ok hash run attribute env seen s es e,
          sync_step-applied hash run attribute env seen es (leveled hash run attribute env seen s)
              (leveled-changed seen es s ∙ c) (rw lf good),
        )
        refl

  failed_round :
      (seen : Seen) (s : Service) (es : List BlockEntry)
      → fetch_entries seen.fetched ≡ ok es
      → differs seen es s ≡ true
      → (write_map_files seen.disk es s.files).1 ≡ false
      → ((after seen s).files ≡ (write_map_files seen.disk es s.files).0)
        × ((after seen s).last_hash ≡ s.last_hash)
        × ((after seen s).last_marker ≡ s.last_marker)
  failed_round seen s es e c bad =
      let (lm, lh, lf, _) = apply_dynamic_log_level-keeps attribute seen.level s in
      rw
        (
          round-ok hash run attribute env seen s es e,
          sync_step-failed hash run attribute env seen es (leveled hash run attribute env seen s)
              (leveled-changed seen es s ∙ c) (rw lf bad),
        )
        (rw lf refl, lh, lm)

  -- After a round that wrote the maps, a round that meets the same rows, in whatever order, and the
  -- same marker, or none, writes no file and runs no command.
  pub round-round :
      (seen again : Seen) (s : Service) (es fs : List BlockEntry)
      → fetch_entries seen.fetched ≡ ok es
      → fetch_entries again.fetched ≡ ok fs
      → Permᴰ es fs
      → (get_change_marker again.marker_row ≡ get_change_marker seen.marker_row)
        ⊎ (get_change_marker again.marker_row ≡ none)
      → differs seen es s ≡ true
      → (write_map_files seen.disk es s.files).1 ≡ true
      → ((after again (after seen s)).files ≡ (after seen s).files)
        × ((after again (after seen s)).commands ≡ (after seen s).commands)
  round-round seen again s es fs e f p m c good = quiet_round again (after seen s) fs f (
      rw (applied_round seen s es e c good, ← sorted-Perm p)
        (elim m [
          | inl same ↦
              rw same (not-is_changed (get_change_marker seen.marker_row) (hash (sorted es)))
          | inr gone ↦
              rw gone
                (not-is_changed_unknown (hash (sorted es)) (get_change_marker seen.marker_row))
        ]))

  -- A round whose write raises leaves the change to be seen: the next round that meets the same rows
  -- and marker, with a disk that takes every write, brings the four files up to date.
  pub round_retry :
      (seen : Seen) (disk : MapName → WriteOutcome) (s : Service) (es : List BlockEntry)
      → fetch_entries seen.fetched ≡ ok es
      → differs seen es s ≡ true
      → (write_map_files seen.disk es s.files).1 ≡ false
      → ((n : MapName) → disk n ≡ written)
      → IsWritten es (after (record seen { disk = disk }) (after seen s)).files
  round_retry seen disk s es e c bad good n =
      let (_, lh, lm) = failed_round seen s es e c bad in
      let done = write_map_files-written disk es (after seen s).files good in
      rw (applied_round (record seen { disk = disk }) (after seen s) es e (rw (lh, lm) c) done) (
        write_map_files-expected disk es (leveled hash run attribute env seen (after seen s)).files
          n
          (write_map_files-written disk es
            (leveled hash run attribute env seen (after seen s)).files good))

  -- Where the write of a change raises, and the table then goes back to the rows and the marker that
  -- the service remembers, the next round writes nothing: the four files stay as the failed write
  -- left them.
  pub round_reverted :
      (seen back : Seen) (s : Service) (es fs : List BlockEntry)
      → fetch_entries seen.fetched ≡ ok es
      → fetch_entries back.fetched ≡ ok fs
      → differs seen es s ≡ true
      → (write_map_files seen.disk es s.files).1 ≡ false
      → differs back fs s ≡ false
      → (after back (after seen s)).files ≡ (write_map_files seen.disk es s.files).0
  round_reverted seen back s es fs e f c bad q =
      let (lf, lh, lm) = failed_round seen s es e c bad in
      (quiet_round back (after seen s) fs f (rw (lh, lm) q)).0 ∙ lf
