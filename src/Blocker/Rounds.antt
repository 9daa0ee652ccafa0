-- ===== src/Blocker/Rounds.antt =====
-- What the rounds of the loop keep, where every write of a map succeeds.
use postfixblocker.Prelude.{
  ◌≡◌, refl, sym, subst, ap, ◌∙◌, ◌⊎◌, Bool, true, false, Option, none, some, List, [], ◌∷◌, arith,
  Bool-cases, inl, inr, All,
}
use postfixblocker.Text.{Text}
use postfixblocker.Text.Decimal.{ℤ}
use postfixblocker.Text.Lines.{terminate}
use postfixblocker.Exec.{
  Outcome-cases, Exn, Outcome, ok, raised, Exec, handle, pure, lift, try_except, ◌>>=◌, ◌>>◌,
}
use postfixblocker.Postfix.Maps.{
  BlockEntry, MapFiles, MapName, content_of, written, write_map_files,
}
use postfixblocker.Postfix.Maps.Laws.{expected, write_map_files-expected, write_map_files-written}
use postfixblocker.Postfix.Control.{Command, Completed, reload_postfix}
use postfixblocker.Blocker.Signature.{sorted}
use postfixblocker.Blocker.{
  Marker, Service, Seen, fetch_entries, get_change_marker, int_eq, is_changed, write_step,
  apply_dynamic_log_level, reload_step, sync_step, level_step, round, rounds, initial,
}

-- Each of the four files holds the lines of these entries.
abbrev pub IsWritten : List BlockEntry → MapFiles → Type 0
IsWritten es f = (n : MapName) → content_of f n ≡ terminate (expected n es)

pub int_eq_self : (n : ℤ) → int_eq n n ≡ true
int_eq_self n = ground arith

pub int_eq-≡ : (m n : ℤ) → int_eq m n ≡ true → m ≡ n
int_eq-≡ m n h = ground arith

pub apply_dynamic_log_level-keeps :
    (attribute : Text → Option (Option ℤ)) (level : Option Text) (s : Service)
    → ((apply_dynamic_log_level attribute level s).last_marker ≡ s.last_marker)
      × ((apply_dynamic_log_level attribute level s).last_hash ≡ s.last_hash)
      × ((apply_dynamic_log_level attribute level s).files ≡ s.files)
      × ((apply_dynamic_log_level attribute level s).commands ≡ s.commands)
unfolding apply_dynamic_log_level
apply_dynamic_log_level-keeps attribute level s = ground arith

is_changed-known :
    (m : Option Marker) (h : ℤ) (last_m : Option Marker) (last_h : Option ℤ)
    → is_changed m h last_m last_h ≡ false
    → last_h ≡ some h
unfolding is_changed
is_changed-known m h last_m none q = ground arith
is_changed-known m h last_m (some n) q = ap some (sym (int_eq-≡ h n (ground (arith, q))))

-- A handler that only logs leaves the state of what it handles.
handle-state : {S : Type 0} (x : Outcome (Unit {0}) × S) → (handle (λ e. pure tt) x).1 ≡ x.1
handle-state (ok a, s) = refl
handle-state (raised e, s) = refl

module _ (hash : List BlockEntry → ℤ) (run : Command → Outcome Completed)
    (attribute : Text → Option (Option ℤ)) (env : Option Text) where
  abbrev pub step : Seen → Service → Service
  step = round hash run attribute env

  -- The state once the level is applied.
  abbrev pub leveled : Seen → Service → Service
  leveled seen s = apply_dynamic_log_level attribute seen.level s

  abbrev pub changed : Seen → List BlockEntry → Service → Bool
  changed seen es s =
      is_changed (get_change_marker seen.marker_row) (hash (sorted es)) s.last_marker s.last_hash

  -- The loop's body, for a given end of the fetch.
  abbrev body : Seen → Outcome (List BlockEntry) → Exec Service (Unit {0})
  body seen fetched =
      try_except
        (do
          level_step hash run attribute env seen.level
          entries ← lift fetched
          sync_step hash run attribute env seen entries)
        (λ e. pure tt)

  pub round-raised :
      (seen : Seen) (s : Service) {e : Exn}
      → fetch_entries seen.fetched ≡ raised e
      → step seen s ≡ leveled seen s
  unfolding round level_step
  round-raised seen s h = ap (λ r. (body seen r s).1) h

  pub round-ok :
      (seen : Seen) (s : Service) (es : List BlockEntry)
      → fetch_entries seen.fetched ≡ ok es
      → step seen s ≡ (sync_step hash run attribute env seen es (leveled seen s)).1
  unfolding round level_step
  round-ok seen s es h =
      ap (λ r. (body seen r s).1) h
      ∙ handle-state (sync_step hash run attribute env seen es (leveled seen s))

  pub sync_step-quiet :
      (seen : Seen) (es : List BlockEntry) (s : Service)
      → changed seen es s ≡ false
      → sync_step hash run attribute env seen es s ≡ (ok tt, s)
  unfolding sync_step
  sync_step-quiet seen es s h = rw h refl

  -- The state after the maps are written and the reload is tried.
  abbrev pub applied : Seen → List BlockEntry → Service → Service
  applied seen es s = record s {
    files = (write_map_files seen.disk es s.files).0;
    commands = (reload_postfix run env seen.sizes s.commands).1;
    last_hash = some (hash (sorted es));
    last_marker = get_change_marker seen.marker_row;
  }

  pub sync_step-applied :
      (seen : Seen) (es : List BlockEntry) (s : Service)
      → changed seen es s ≡ true
      → (write_map_files seen.disk es s.files).1 ≡ true
      → sync_step hash run attribute env seen es s ≡ (ok tt, applied seen es s)
  unfolding sync_step write_step reload_step
  sync_step-applied seen es s h good = rw (h, good) refl

  pub sync_step-failed :
      (seen : Seen) (es : List BlockEntry) (s : Service)
      → changed seen es s ≡ true
      → (write_map_files seen.disk es s.files).1 ≡ false
      → (sync_step hash run attribute env seen es s).1
        ≡ record s { files = (write_map_files seen.disk es s.files).0 }
  unfolding sync_step write_step
  sync_step-failed seen es s h bad = rw (h, bad) refl

  -- Nothing was ever applied, or the files hold the entries that the last hash was taken of.
  pub IsInSync : Option ℤ → MapFiles → Type 0
  IsInSync last_hash f =
      (last_hash ≡ none)
      ⊎ ((es : List BlockEntry) × (last_hash ≡ some (hash (sorted es))) × IsWritten es f)

  -- Every write of a round succeeds.
  abbrev pub IsGood : Seen → Type 0
  IsGood seen = (n : MapName) → seen.disk n ≡ written

  changed-IsInSync :
      (seen : Seen) (es : List BlockEntry) (s : Service)
      → IsGood seen
      → IsInSync s.last_hash s.files
      → IsInSync
          (sync_step hash run attribute env seen es s).1.last_hash
          (sync_step hash run attribute env seen es s).1.files
  unfolding IsInSync
  changed-IsInSync seen es s good h = elim (Bool-cases (changed seen es s)) [
    | inl c ↦
        rw (sync_step-applied seen es s c (write_map_files-written seen.disk es s.files good)) (
          inr (
            es,
            refl,
            λ n.
                write_map_files-expected seen.disk es s.files n
                  (write_map_files-written seen.disk es s.files good),
          ))
    | inr q ↦ rw (sync_step-quiet seen es s q) h
  ]

  leveled-IsInSync :
      (seen : Seen) (s : Service)
      → IsInSync s.last_hash s.files
      → IsInSync (leveled seen s).last_hash (leveled seen s).files
  leveled-IsInSync seen s h =
      let (_, lh, lf, _) = apply_dynamic_log_level-keeps attribute seen.level s in rw (lh, lf) h

  pub round-IsInSync :
      (seen : Seen) (s : Service)
      → IsGood seen
      → IsInSync s.last_hash s.files
      → IsInSync (step seen s).last_hash (step seen s).files
  round-IsInSync seen s good h = elim (Outcome-cases (fetch_entries seen.fetched)) [
    | inl (es, e) ↦
        rw (round-ok seen s es e)
          (changed-IsInSync seen es (leveled seen s) good (leveled-IsInSync seen s h))
    | inr (x, e) ↦ rw (round-raised seen s e) (leveled-IsInSync seen s h)
  ]

  rounds-IsInSync :
      (ss : List Seen) (s : Service)
      → All IsGood ss
      → IsInSync s.last_hash s.files
      → IsInSync
          (rounds hash run attribute env ss s).last_hash
          (rounds hash run attribute env ss s).files
  unfolding rounds
  rounds-IsInSync [] s good h = h
  rounds-IsInSync (seen ∷ ss) s good h =
      rounds-IsInSync ss (step seen s) good.1 (round-IsInSync seen s good.0 h)

  known_entries :
      (h : ℤ) (f : MapFiles)
      → IsInSync (some h) f
      → (es : List BlockEntry) × (hash (sorted es) ≡ h) × IsWritten es f
  unfolding IsInSync
  known_entries h f (inl e) = cc
  known_entries h f (inr (es, e, w)) = (es, cc, w)

  synced-IsWritten :
      (seen : Seen) (es : List BlockEntry) (s : Service)
      → IsGood seen
      → IsInSync s.last_hash s.files
      → (es' : List BlockEntry) × (hash (sorted es') ≡ hash (sorted es))
        × IsWritten es' (sync_step hash run attribute env seen es s).1.files
  unfolding IsInSync
  synced-IsWritten seen es s good h = elim (Bool-cases (changed seen es s)) [
    | inl c ↦
        rw (sync_step-applied seen es s c (write_map_files-written seen.disk es s.files good)) (
          es,
          refl,
          λ n.
              write_map_files-expected seen.disk es s.files n
                (write_map_files-written seen.disk es s.files good),
        )
    | inr q ↦ rw (sync_step-quiet seen es s q) (
        known_entries (hash (sorted es)) s.files (
          subst (λ x. IsInSync x s.files)
            (is_changed-known (get_change_marker seen.marker_row) (hash (sorted es)) s.last_marker
              s.last_hash q)
            h))
  ]

  -- Rounds from a state without a hash.
  pub rounds-IsWritten_from :
      (s : Service) (ss : List Seen) (seen : Seen) (es : List BlockEntry)
      → s.last_hash ≡ none
      → All IsGood ss
      → IsGood seen
      → fetch_entries seen.fetched ≡ ok es
      → (es' : List BlockEntry) × (hash (sorted es') ≡ hash (sorted es))
        × IsWritten es' (step seen (rounds hash run attribute env ss s)).files
  rounds-IsWritten_from s ss seen es none_yet goods good e =
      rw (round-ok seen (rounds hash run attribute env ss s) es e) (
        synced-IsWritten seen es (leveled seen (rounds hash run attribute env ss s)) good (
          leveled-IsInSync seen (rounds hash run attribute env ss s)
            (rounds-IsInSync ss s goods (unfold IsInSync in inl none_yet))))

  -- Start with any files, run any rounds in which every write succeeds, and then one more in which
  -- the query returns some entries: the four files then hold exactly the lines of entries that have
  -- the same hash as those of the query, whatever the markers and the exceptions of the rounds were.
  pub rounds-IsWritten :
      (files : MapFiles) (ss : List Seen) (seen : Seen) (es : List BlockEntry)
      → All IsGood ss
      → IsGood seen
      → fetch_entries seen.fetched ≡ ok es
      → (es' : List BlockEntry) × (hash (sorted es') ≡ hash (sorted es))
        × IsWritten es'
            (step seen
              (rounds hash run attribute env ss (initial hash run attribute env files))).files
  rounds-IsWritten files ss seen es goods good e =
      rounds-IsWritten_from (initial hash run attribute env files) ss seen es refl goods good e
