-- ===== src/Startup/Twice.antt =====
-- That a second configuration changes nothing.
use postfixblocker.Prelude.{
  ◌≡◌, refl, ap, ap₂, Bool, true, Option, none, some, List, [], ◌∷◌, ◌++◌, map, any, arith,
  Bool-cases, inl, inr,
}
use postfixblocker.Text.{Text, ==_self, strip}
use postfixblocker.Text.Decimal.{ℤ, parse_int}
use postfixblocker.Exec.{Outcome, ok, raised}
use postfixblocker.Startup.{
  Handler, Root, set_handler_level, is_file, new_handler, add_file, add_path, level_of, with_level,
  or_default, configure_logging,
}

set_handler_level_idem :
    (n : ℤ) (h : Handler) → set_handler_level n (set_handler_level n h) ≡ set_handler_level n h
unfolding set_handler_level
set_handler_level_idem n h = ground arith

abbrev leveled : ℤ → List Handler → List Handler
leveled n l = map (set_handler_level n) l

leveled_idem : (n : ℤ) (l : List Handler) → leveled n (leveled n l) ≡ leveled n l
leveled_idem n [] = refl
leveled_idem n (h ∷ l) = ap₂ (◌∷◌) (set_handler_level_idem n h) (leveled_idem n l)

-- The handlers behind a first configuration.
abbrev configured : ℤ → Option (Outcome Text) → List Handler → List Handler
configured n opened l = add_path n opened (leveled n l)

is_file-leveled :
    (n : ℤ) (base : Text) (l : List Handler)
    → any (is_file base) (leveled n l) ≡ any (is_file base) l
unfolding set_handler_level
is_file-leveled n base [] = refl
is_file-leveled n base (h ∷ l) = ground (arith, is_file-leveled n base l)

any-end :
    (p : Handler → Bool) (l : List Handler) (h : Handler) → p h ≡ true → any p (l ++ h ∷ []) ≡ true
any-end p [] h e = ground arith
any-end p (k ∷ l) h e = ground (arith, any-end p l h e)

leveled-end :
    (n : ℤ) (base : Text) (l : List Handler)
    → leveled n (leveled n l ++ new_handler n base ∷ []) ≡ leveled n l ++ new_handler n base ∷ []
unfolding set_handler_level
leveled-end n base [] = refl
leveled-end n base (h ∷ l) =
    ap₂ (◌∷◌) (unfold set_handler_level in set_handler_level_idem n h) (leveled-end n base l)

configured_idem :
    (n : ℤ) (opened : Option (Outcome Text)) (l : List Handler)
    → configured n opened (configured n opened l) ≡ configured n opened l
unfolding add_path add_file
configured_idem n none l = leveled_idem n l
configured_idem n (some (raised e)) l = leveled_idem n l
configured_idem n (some (ok base)) l = elim (Bool-cases (any (is_file base) (leveled n l))) [
  | inl there ↦ rw (there, leveled_idem n l, there) refl
  | inr new ↦
      rw
        (
          new,
          leveled-end n base l,
          any-end (is_file base) (leveled n l) (new_handler n base) (==_self base),
        )
        refl
]

-- Configuring the loggers a second time, with the same variables and a file that opens alike, changes
-- nothing: no handler comes twice, and no level changes.
pub configure_logging_idem :
    (attribute : Text → Option (Option ℤ)) (value : Option Text) (default : Text)
    (opened : Option (Outcome Text)) (root : Root)
    → configure_logging attribute value default opened
        (configure_logging attribute value default opened root).1
      ≡ configure_logging attribute value default opened root
unfolding configure_logging
configure_logging_idem attribute value default opened root = go (
    level_of attribute (parse_int (strip (or_default value default)))
      (strip (or_default value default)))
  where
    go :
        (level : Option ℤ)
        → with_level attribute level opened (with_level attribute level opened root).1
          ≡ with_level attribute level opened root
    go none = refl
    go (some n) =
        ap (λ l. (ok tt, record { level = n; handlers = l }))
          (configured_idem n opened root.handlers)
