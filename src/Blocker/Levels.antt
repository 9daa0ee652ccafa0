-- ===== src/Blocker/Levels.antt =====
-- The level of the root logger, which `_apply_dynamic_log_level` sets only where the text has changed.
use postfixblocker.Prelude.{
  ◌≡◌, refl, sym, ap, ◌∙◌, true, Option, none, some, List, [], ◌∷◌, arith, Bool-cases, Option-cases,
  inl, inr, or_else,
}
use postfixblocker.Text.{Text, ==_iff}
use postfixblocker.Text.Decimal.{ℤ}
use postfixblocker.Exec.{Outcome-cases, Outcome}
use postfixblocker.Postfix.Maps.{BlockEntry, MapFiles, write_map_files}
use postfixblocker.Postfix.Control.{Command, Completed}
use postfixblocker.Blocker.{
  Service, Seen, fetch_entries, level_number, is_last_level, apply_dynamic_log_level, sync_step,
  rounds, initial,
}
use postfixblocker.Blocker.Rounds.{
  step, leveled, changed, round-raised, round-ok, sync_step-quiet, sync_step-applied,
  sync_step-failed,
}

module _ (attribute : Text → Option (Option ℤ)) where
  -- The root logger has the level of the text that was applied last.
  abbrev IsLeveled : Option Text → Option ℤ → Type 0
  IsLeveled last root = (l : Text) → last ≡ some l → level_number attribute l ≡ root

  last_level-≡ : (l : Text) (o : Option Text) → is_last_level attribute l o ≡ true → o ≡ some l
  last_level-≡ l none e = ground arith
  last_level-≡ l (some k) e = ap some (sym ((==_iff l k).0 e))

  apply_dynamic_log_level-IsLeveled :
      (level : Option Text) (s : Service)
      → IsLeveled s.last_blocker_level s.root_level
      → IsLeveled
          (apply_dynamic_log_level attribute level s).last_blocker_level
          (apply_dynamic_log_level attribute level s).root_level
  unfolding apply_dynamic_log_level
  apply_dynamic_log_level-IsLeveled none s h = h
  apply_dynamic_log_level-IsLeveled (some l) s h =
      elim (Bool-cases (is_last_level attribute l s.last_blocker_level)) [
        | inl same ↦ rw same h
        | inr other ↦ rw other (elim (Option-cases (level_number attribute l)) [
          | inl e ↦ rw e h
          | inr (n, e) ↦ rw e λ k p. ap (λ o. level_number attribute (or_else o l)) (sym p) ∙ e
        ])
      ]

  apply_dynamic_log_level-root :
      (l : Text) (n : ℤ) (s : Service)
      → IsLeveled s.last_blocker_level s.root_level
      → level_number attribute l ≡ some n
      → (apply_dynamic_log_level attribute (some l) s).root_level ≡ some n
  unfolding apply_dynamic_log_level
  apply_dynamic_log_level-root l n s h e =
      elim (Bool-cases (is_last_level attribute l s.last_blocker_level)) [
        | inl same ↦ rw same (sym (h l (last_level-≡ l s.last_blocker_level same)) ∙ e)
        | inr other ↦ rw (other, e) refl
      ]

module _ (hash : List BlockEntry → ℤ) (run : Command → Outcome Completed)
    (attribute : Text → Option (Option ℤ)) (env : Option Text) where
  abbrev IsKept : Service → Service → Type 0
  IsKept s t = (t.last_blocker_level ≡ s.last_blocker_level) × (t.root_level ≡ s.root_level)

  sync_step-IsKept :
      (seen : Seen) (es : List BlockEntry) (s : Service)
      → IsKept s (sync_step hash run attribute env seen es s).1
  sync_step-IsKept seen es s = elim (Bool-cases (changed hash run attribute env seen es s)) [
    | inr q ↦ rw (sync_step-quiet hash run attribute env seen es s q) (refl, refl)
    | inl c ↦ elim (Bool-cases (write_map_files seen.disk es s.files).1) [
      | inl good ↦ rw (sync_step-applied hash run attribute env seen es s c good) (refl, refl)
      | inr bad ↦ rw (sync_step-failed hash run attribute env seen es s c bad) (refl, refl)
    ]
  ]

  round-IsKept :
      (seen : Seen) (s : Service)
      → IsKept (leveled hash run attribute env seen s) (step hash run attribute env seen s)
  round-IsKept seen s = elim (Outcome-cases (fetch_entries seen.fetched)) [
    | inl (es, e) ↦
        rw (round-ok hash run attribute env seen s es e)
          (sync_step-IsKept seen es (leveled hash run attribute env seen s))
    | inr (x, e) ↦ rw (round-raised hash run attribute env seen s e) (refl, refl)
  ]

  round-IsLeveled :
      (seen : Seen) (s : Service)
      → IsLeveled attribute s.last_blocker_level s.root_level
      → IsLeveled attribute
          (step hash run attribute env seen s).last_blocker_level
          (step hash run attribute env seen s).root_level
  round-IsLeveled seen s h =
      let (last, root) = round-IsKept seen s in
      rw (last, root) (apply_dynamic_log_level-IsLeveled attribute seen.level s h)

  rounds-IsLeveled :
      (ss : List Seen) (s : Service)
      → IsLeveled attribute s.last_blocker_level s.root_level
      → IsLeveled attribute
          (rounds hash run attribute env ss s).last_blocker_level
          (rounds hash run attribute env ss s).root_level
  unfolding rounds
  rounds-IsLeveled [] s h = h
  rounds-IsLeveled (seen ∷ ss) s h =
      rounds-IsLeveled ss (step hash run attribute env seen s) (round-IsLeveled seen s h)

  -- The service after some rounds.
  abbrev pub ran : MapFiles → List Seen → Service
  ran files ss = rounds hash run attribute env ss (initial hash run attribute env files)

  -- After any rounds, a round that reads a level with a number leaves the root logger at that number,
  -- whatever else it meets.
  pub rounds-root :
      (files : MapFiles) (ss : List Seen) (seen : Seen) (l : Text) (n : ℤ)
      → seen.level ≡ some l
      → level_number attribute l ≡ some n
      → (step hash run attribute env seen (ran files ss)).root_level ≡ some n
  rounds-root files ss seen l n e number =
      (round-IsKept seen (ran files ss)).1
      ∙ ap (λ o. (apply_dynamic_log_level attribute o (ran files ss)).root_level) e
      ∙ apply_dynamic_log_level-root attribute l n (ran files ss)
          (rounds-IsLeveled ss (initial hash run attribute env files) (λ k p. ground arith)) number
