-- ===== src/Postfix/LogLevel/MainCf/Whole.antt =====
-- The rewrite of main.cf as a whole: a second one changes nothing, and what holds of the lines that are
-- there and of the four written ones holds of all.
use postfixblocker.Prelude.{
  ℕ, ◌≡◌, refl, ap, sym, Bool, true, false, Option, none, some, List, [], ◌∷◌, map, All, All-append,
  append-nil, inl, inr, Option-cases,
}
use postfixblocker.Text.{Text}
use postfixblocker.Postfix.LogLevel.{rewrite_main_cf_lines}
use postfixblocker.Postfix.LogLevel.MainCf.{
  Key, peer_level, peer_list, smtp_tls, smtpd_tls, key_of, line_of, with_key, fixed, sets, missing,
  missing_for, AllWanted, IsConfigured, rewrite_main_cf_lines_lem, sets-rewrite_main_cf_lines,
  rewrite_main_cf_lines-IsConfigured,
}

module _ (lvl tls_lvl : ℕ) where
  map-fixed_of_wanted :
      (out : List Text) → AllWanted lvl tls_lvl out → map (fixed lvl tls_lvl) out ≡ out
  unfolding fixed
  map-fixed_of_wanted [] h = refl
  map-fixed_of_wanted (l ∷ out) h = elim (Option-cases (key_of l)) [
    | inl e ↦ rw (e, map-fixed_of_wanted out h.1)
    | inr (k, e) ↦ rw (e, map-fixed_of_wanted out h.1) (ap (λ x. x ∷ out) (sym (h.0 k e)))
  ]

  -- A configured file is left as it is.
  rewrite_main_cf_lines_of_IsConfigured :
      (lines out : List Text)
      → IsConfigured lvl tls_lvl lines out
      → rewrite_main_cf_lines out lvl tls_lvl ≡ out
  rewrite_main_cf_lines_of_IsConfigured lines out c =
      rw
        (
          rewrite_main_cf_lines_lem lvl tls_lvl out,
          map-fixed_of_wanted out c.wanted,
          c.present peer_level,
          c.present peer_list,
          c.present smtp_tls,
          c.present smtpd_tls,
        )
        (append-nil out)

  -- Rewriting twice is rewriting once.
  pub rewrite_main_cf_lines_idem :
      (lines : List Text)
      → rewrite_main_cf_lines (rewrite_main_cf_lines lines lvl tls_lvl) lvl tls_lvl
        ≡ rewrite_main_cf_lines lines lvl tls_lvl
  rewrite_main_cf_lines_idem lines =
      rewrite_main_cf_lines_of_IsConfigured lines _
        (rewrite_main_cf_lines-IsConfigured lvl tls_lvl lines)

  -- A property of the lines that are there and of the written lines holds of all output lines.
  pub rewrite_main_cf_lines-All :
      (P : Text → Type 0) (lines : List Text)
      → All P lines
      → ((k : Key) → P (line_of lvl tls_lvl k))
      → All P (rewrite_main_cf_lines lines lvl tls_lvl)
  rewrite_main_cf_lines-All P lines h keys = rw (rewrite_main_cf_lines_lem lvl tls_lvl lines) (
      All-append P (map (fixed lvl tls_lvl) lines) _ (map-fixed-All lines h)
        (missing_for-All _ _ _ _))
    where
      with_key-All : (l : Text) (k : Option Key) → P l → P (with_key lvl tls_lvl l k)
      with_key-All l none p = p
      with_key-All l (some k) p = keys k

      map-fixed-All : (ls : List Text) → All P ls → All P (map (fixed lvl tls_lvl) ls)
      map-fixed-All [] h = tt
      map-fixed-All (l ∷ ls) h =
          (unfold fixed in with_key-All l (key_of l) h.0, map-fixed-All ls h.1)

      missing-All : (b : Bool) (k : Key) → All P (missing lvl tls_lvl b k)
      missing-All true k = tt
      missing-All false k = (keys k, tt)

      missing_for-All : (a b c d : Bool) → All P (missing_for lvl tls_lvl a b c d)
      missing_for-All a b c d =
          All-append P (missing lvl tls_lvl a peer_level) _ (missing-All a peer_level) (
            All-append P (missing lvl tls_lvl b peer_list) _ (missing-All b peer_list) (
              All-append P (missing lvl tls_lvl c smtp_tls) _ (missing-All c smtp_tls)
                (missing-All d smtpd_tls)))

  -- The output is not empty.
  pub rewrite_main_cf_lines-cons :
      (lines : List Text)
      → (l : Text) × (rest : List Text) × (rewrite_main_cf_lines lines lvl tls_lvl ≡ l ∷ rest)
  rewrite_main_cf_lines-cons lines =
      split (rewrite_main_cf_lines lines lvl tls_lvl)
        (sets-rewrite_main_cf_lines lvl tls_lvl peer_level lines)
    where
      split :
          (out : List Text)
          → sets peer_level out ≡ true
          → (l : Text) × (rest : List Text) × (out ≡ l ∷ rest)
      split [] e = cc
      split (l ∷ rest) e = (l, rest, refl)
