-- ===== src/Postfix/LogLevel/Levels.antt =====
-- The two maps from a level's text to Postfix's numbers.
use postfixblocker.Prelude.{
  ℕ, zero, suc, ◌≤◌, ◌≡◌, refl, false, Option, none, some, arith, leb, Bool-cases, Option-cases,
  inl, inr, if◌then◌else◌,
}
use postfixblocker.Text.{Text, codes, ◌==◌, ==_iff, ==_self, strip, upper}
use postfixblocker.Text.Decimal.{ℤ, pos, negsuc, parse_int}
use postfixblocker.Postfix.LogLevel.{
  clamp_level, or_named, named_level, map_ui_to_debug_peer_level, derive_tls_loglevel,
}

-- The names that are not numbers.
debug_not_int : parse_int (codes "DEBUG") ≡ none
unfolding parse_int
debug_not_int = refl

info_not_int : parse_int (codes "INFO") ≡ none
unfolding parse_int
info_not_int = refl

info_ne_debug : (codes "INFO" == codes "DEBUG") ≡ false
unfolding ◌==◌
info_ne_debug = refl

-- A number in its bounds, and 1 for no number.
abbrev pub IsClamped : Option ℤ → ℕ → Type 0
IsClamped none level = level ≡ 1
IsClamped (some (negsuc n)) level = level ≡ 1
IsClamped (some (pos zero)) level = level ≡ 1
IsClamped (some (pos (suc n))) level = if leb 4 (suc n) then level ≡ 4 else level ≡ suc n

clamp_level_lem : (n : ℤ) → IsClamped (some n) (clamp_level n)
clamp_level_lem (negsuc n) = refl
clamp_level_lem (pos zero) = refl
clamp_level_lem (pos (suc n)) = ground arith

or_named_lem :
    (s : Text)
    → (s == codes "DEBUG") ≡ false
    → (s == codes "INFO") ≡ false
    → IsClamped (parse_int s) (or_named (parse_int s) s)
unfolding named_level
or_named_lem s debug info = elim (Option-cases (parse_int s)) [
  | inl e ↦ rw (e, debug, info) refl
  | inr (n, e) ↦ rw e (clamp_level_lem n)
]

-- The text that `map_ui_to_debug_peer_level` reads.
abbrev pub name_of_level : Text → Text
name_of_level level_s = upper (strip level_s)

-- DEBUG, in whatever case and with blanks around it, gives the level 10 for Postfix's
-- `debug_peer_level`, and INFO gives 2. A decimal number gives itself between 1 and 4, a smaller one
-- 1 and a greater one 4. Every other text gives 1.
pub map_ui_to_debug_peer_level_bounds :
    (level_s : Text)
    → if name_of_level level_s == codes "DEBUG"
      then map_ui_to_debug_peer_level level_s ≡ 10
      else if name_of_level level_s == codes "INFO"
      then map_ui_to_debug_peer_level level_s ≡ 2
      else IsClamped (parse_int (name_of_level level_s)) (map_ui_to_debug_peer_level level_s)
unfolding map_ui_to_debug_peer_level
map_ui_to_debug_peer_level_bounds level_s =
    elim (Bool-cases (name_of_level level_s == codes "DEBUG")) [
      | inl debug ↦ rw ((==_iff _ _).0 debug, debug_not_int, ==_self) refl
      | inr other ↦ elim (Bool-cases (name_of_level level_s == codes "INFO")) [
        | inl info ↦ rw ((==_iff _ _).0 info, info_not_int, info_ne_debug, ==_self) refl
        | inr numeric ↦ rw (other, numeric) (or_named_lem (name_of_level level_s) other numeric)
      ]
    ]

-- For every text the TLS level is at most the peer level, and at most 4.
pub derive_tls_loglevel-le :
    (level_s : Text)
    → (derive_tls_loglevel level_s ≤ map_ui_to_debug_peer_level level_s)
      × (derive_tls_loglevel level_s ≤ 4)
unfolding derive_tls_loglevel map_ui_to_debug_peer_level
derive_tls_loglevel-le level_s = elim (Bool-cases (upper (strip level_s) == codes "DEBUG")) [
  | inl debug ↦ rw ((==_iff _ _).0 debug, debug_not_int, ==_self) (ground arith)
  | inr other ↦ elim (Bool-cases (upper (strip level_s) == codes "INFO")) [
    | inl info ↦ rw ((==_iff _ _).0 info, info_not_int, info_ne_debug, ==_self) (ground arith)
    | inr numeric ↦ rw (other, numeric) (ground arith)
  ]
]
