-- ===== src/Postfix/LogLevel/MainCf.antt =====
-- `_rewrite_main_cf_lines` against a description by keys: which key a line sets, and what its line
-- has to be.
pub mod Whole
use mathlib.Core.Bool.{or_assoc}
use postfixblocker.Prelude.{
  ℕ, ◌≡◌, refl, ap, sym, ◌∙◌, Bool, true, false, ◌||◌, Option, none, some, List, [], ◌∷◌, ◌++◌, map,
  arith, All, All-append, any, keep, keep-append, if◌then◌else◌, append_assoc, append-nil, inl, inr,
  Option-cases,
}
use postfixblocker.Text.{Text, codes, strip, starts_with, lstrip, rstrip, is_space}
use postfixblocker.Postfix.LogLevel.{
  peer_level_line, peer_list_line, smtp_tls_line, smtpd_tls_line, Rewrite, rewrite_line,
  rewrite_loop, start, append_missing, unless_found, rewrite_main_cf_lines,
}

pub data Key : Type 0 where
  peer_level peer_list smtp_tls smtpd_tls : Key

-- The first of the four keys that the stripped line starts with.
pub key_of : Text → Option Key
key_of line =
    let sline = strip line in
    if starts_with (codes "debug_peer_level") sline
    then some peer_level
    else if starts_with (codes "debug_peer_list") sline
    then some peer_list
    else if starts_with (codes "smtp_tls_loglevel") sline
    then some smtp_tls
    else if starts_with (codes "smtpd_tls_loglevel") sline
    then some smtpd_tls
    else none

abbrev pub is_key : Key → Option Key → Bool
is_key peer_level (some peer_level) = true
is_key peer_list (some peer_list) = true
is_key smtp_tls (some smtp_tls) = true
is_key smtpd_tls (some smtpd_tls) = true
is_key _ _ = false

abbrev pub is_none : Option Key → Bool
is_none none = true
is_none (some k) = false

abbrev pub sets : Key → List Text → Bool
sets k = any (λ l. is_key k (key_of l))

unless_found-if :
    (b : Bool) (line : Text) (out : List Text)
    → unless_found b line out ≡ out ++ (if b then [] else line ∷ [])
unless_found-if true line out = rw append-nil
unless_found-if false line out = refl

module _ (lvl tls_lvl : ℕ) where
  abbrev pub line_of : Key → Text
  line_of peer_level = peer_level_line lvl
  line_of peer_list = peer_list_line
  line_of smtp_tls = smtp_tls_line tls_lvl
  line_of smtpd_tls = smtpd_tls_line tls_lvl

  abbrev with_key : Text → Option Key → Text
  with_key l none = l
  with_key l (some k) = line_of k

  fixed : Text → Text
  fixed l = with_key l (key_of l)

  abbrev after_line : Rewrite → Text → Option Key → Rewrite
  after_line r l k = record {
    out = r.out ++ with_key l k ∷ [];
    found_lvl = r.found_lvl || is_key peer_level k;
    found_list = r.found_list || is_key peer_list k;
    found_smtp_tls = r.found_smtp_tls || is_key smtp_tls k;
    found_smtpd_tls = r.found_smtpd_tls || is_key smtpd_tls k;
  }

  rewrite_line_lem :
      (r : Rewrite) (l : Text) → rewrite_line lvl tls_lvl r l ≡ after_line r l (key_of l)
  unfolding rewrite_line key_of
  rewrite_line_lem r l = ground arith

  rewrite_loop_lem :
      (r : Rewrite) (lines : List Text)
      → rewrite_loop lvl tls_lvl r lines ≡ record {
        out = r.out ++ map fixed lines;
        found_lvl = r.found_lvl || sets peer_level lines;
        found_list = r.found_list || sets peer_list lines;
        found_smtp_tls = r.found_smtp_tls || sets smtp_tls lines;
        found_smtpd_tls = r.found_smtpd_tls || sets smtpd_tls lines;
      }
  unfolding rewrite_loop fixed
  rewrite_loop_lem r [] = ground (arith, append-nil r.out)
  rewrite_loop_lem r (l ∷ lines) =
      rewrite_loop_lem (rewrite_line lvl tls_lvl r l) lines
      ∙ rw (rewrite_line_lem r l) (simp (append_assoc, or_assoc))

  abbrev missing : Bool → Key → List Text
  missing b k = if b then [] else line_of k ∷ []

  abbrev missing_for : Bool → Bool → Bool → Bool → List Text
  missing_for a b c d =
      missing a peer_level ++ (missing b peer_list ++ (missing c smtp_tls ++ missing d smtpd_tls))

  abbrev missing_lines : List Text → List Text
  missing_lines lines =
      missing_for (sets peer_level lines) (sets peer_list lines) (sets smtp_tls lines)
        (sets smtpd_tls lines)

  -- Every line in place, and the lines that no key had.
  rewrite_main_cf_lines_lem :
      (lines : List Text)
      → rewrite_main_cf_lines lines lvl tls_lvl ≡ map fixed lines ++ missing_lines lines
  unfolding rewrite_main_cf_lines append_missing
  rewrite_main_cf_lines_lem lines =
      rw (rewrite_loop_lem start lines) (simp (unless_found-if, append_assoc))

  key_of-line_of : (k : Key) → key_of (line_of k) ≡ some k
  unfolding key_of strip lstrip rstrip is_space starts_with
  key_of-line_of peer_level = refl
  key_of-line_of peer_list = refl
  key_of-line_of smtp_tls = refl
  key_of-line_of smtpd_tls = refl

  key_of-fixed : (l : Text) → key_of (fixed l) ≡ key_of l
  unfolding fixed
  key_of-fixed l = elim (Option-cases (key_of l)) [
    | inl e ↦ rw e e
    | inr (k, e) ↦ rw e (key_of-line_of k)
  ]

  -- Every output line that sets a key is the wanted line of that key.
  abbrev pub AllWanted : List Text → Type 0
  AllWanted = All (λ l. (k : Key) → key_of l ≡ some k → l ≡ line_of k)

  fixed-wanted : (l : Text) (k : Key) → key_of (fixed l) ≡ some k → fixed l ≡ line_of k
  fixed-wanted l k e = unfold fixed in rw (sym (key_of-fixed l) ∙ e)

  map-fixed-AllWanted : (lines : List Text) → AllWanted (map fixed lines)
  map-fixed-AllWanted [] = tt
  map-fixed-AllWanted (l ∷ lines) = (fixed-wanted l, map-fixed-AllWanted lines)

  missing-AllWanted : (b : Bool) (k : Key) → AllWanted (missing b k)
  missing-AllWanted true k = tt
  missing-AllWanted false k = (λ j e. let p : k ≡ j = cc (key_of-line_of k) in ap line_of p, tt)

  missing_for-AllWanted : (a b c d : Bool) → AllWanted (missing_for a b c d)
  missing_for-AllWanted a b c d =
      All-append _ (missing a peer_level) _ (missing-AllWanted a peer_level) (
        All-append _ (missing b peer_list) _ (missing-AllWanted b peer_list) (
          All-append _ (missing c smtp_tls) _ (missing-AllWanted c smtp_tls)
            (missing-AllWanted d smtpd_tls)))

  sets-map-fixed : (k : Key) (lines : List Text) → sets k (map fixed lines) ≡ sets k lines
  sets-map-fixed k [] = refl
  sets-map-fixed k (l ∷ lines) = rw (key_of-fixed l, sets-map-fixed k lines)

  abbrev own : Key → Bool → Bool → Bool → Bool → Bool
  own peer_level a b c d = a
  own peer_list a b c d = b
  own smtp_tls a b c d = c
  own smtpd_tls a b c d = d

  own_or_missing :
      (k : Key) (a b c d : Bool) → (own k a b c d || sets k (missing_for a b c d)) ≡ true
  own_or_missing k a b c d = ground (
    arith,
    key_of-line_of peer_level,
    key_of-line_of peer_list,
    key_of-line_of smtp_tls,
    key_of-line_of smtpd_tls,
  )

  sets-append : (k : Key) (xs ys : List Text) → sets k (xs ++ ys) ≡ (sets k xs || sets k ys)
  sets-append k [] ys = refl
  sets-append k (x ∷ xs) ys = ground (arith, sets-append k xs ys)

  own-sets :
      (k : Key) (lines : List Text)
      → own k
          (sets peer_level lines)
          (sets peer_list lines)
          (sets smtp_tls lines)
          (sets smtpd_tls lines)
        ≡ sets k lines
  own-sets peer_level lines = refl
  own-sets peer_list lines = refl
  own-sets smtp_tls lines = refl
  own-sets smtpd_tls lines = refl

  sets-rewrite_main_cf_lines :
      (k : Key) (lines : List Text) → sets k (rewrite_main_cf_lines lines lvl tls_lvl) ≡ true
  sets-rewrite_main_cf_lines k lines = rw (rewrite_main_cf_lines_lem lines) (
      sets-append k (map fixed lines) (missing_lines lines)
      ∙ rw (sets-map-fixed k lines) (rw (← own-sets k lines) (own_or_missing k _ _ _ _)))

  -- The lines that set none of the four keys.
  abbrev pub unmanaged : List Text → List Text
  unmanaged = keep (λ l. is_none (key_of l))

  unmanaged-map-fixed : (lines : List Text) → unmanaged (map fixed lines) ≡ unmanaged lines
  unmanaged-map-fixed [] = refl
  unmanaged-map-fixed (l ∷ lines) = elim (Option-cases (key_of l)) [
    | inl e ↦ rw (key_of-fixed l, e, unmanaged-map-fixed lines) (unfold fixed in rw e)
    | inr (k, e) ↦ rw (key_of-fixed l, e, unmanaged-map-fixed lines)
  ]

  unmanaged-missing : (b : Bool) (k : Key) → unmanaged (missing b k) ≡ []
  unmanaged-missing true k = refl
  unmanaged-missing false k = rw (key_of-line_of k)

  unmanaged-missing_for : (a b c d : Bool) → unmanaged (missing_for a b c d) ≡ []
  unmanaged-missing_for a b c d = simp (keep-append, unmanaged-missing)

  -- What the rewrite of main.cf achieves.
  pub record IsConfigured (lines out : List Text) : Type 0 where
    pub wanted : AllWanted out
    pub present : (k : Key) → sets k out ≡ true
    pub others : unmanaged out ≡ unmanaged lines

  -- After the rewrite every line that sets one of the four keys sets it as wanted, each key is set,
  -- and the other lines are as they were, in their order.
  pub rewrite_main_cf_lines-IsConfigured :
      (lines : List Text) → IsConfigured lines (rewrite_main_cf_lines lines lvl tls_lvl)
  rewrite_main_cf_lines-IsConfigured lines = record {
    wanted = rw (rewrite_main_cf_lines_lem lines) (
        All-append _ (map fixed lines) _ (map-fixed-AllWanted lines)
          (missing_for-AllWanted _ _ _ _));
    present = λ k. sets-rewrite_main_cf_lines k lines;
    others = rw (rewrite_main_cf_lines_lem lines) (
        keep-append _ (map fixed lines) (missing_lines lines)
        ∙ rw (unmanaged-map-fixed, unmanaged-missing_for) (append-nil _));
  }
