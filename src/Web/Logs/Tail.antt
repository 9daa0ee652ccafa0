-- ===== src/Web/Logs/Tail.antt =====
-- The number of lines that a client may ask for, and the lines that it gets.
use postfixblocker.Prelude.{
  ℕ, zero, suc, ◌-◌, ◌≤◌, min, ◌≡◌, refl, ap, ◌∙◌, Option, none, some, List, ◌++◌, arith, length,
  length-drop, take, drop, take-append-drop, or_else,
}
use postfixblocker.Text.{Text, codes}
use postfixblocker.Text.Decimal.{ℤ, pos, negsuc, parse_int}
use postfixblocker.Web.Logs.{lines_or_default, tail_lines, tail_slice}

lines_or_default_bounds : (o : Option ℤ) → (1 ≤ lines_or_default o) × (lines_or_default o ≤ 8000)
lines_or_default_bounds none = (omega arith, omega arith)
lines_or_default_bounds (some (pos n)) = (omega arith, omega arith)
lines_or_default_bounds (some (negsuc n)) = (omega arith, omega arith)

tail_slice-pos : (n : ℕ) (l : List Text) → 1 ≤ n → tail_slice (pos n) l ≡ drop (length l - n) l
unfolding tail_slice
tail_slice-pos zero l h = absurd (omega (arith, h))
tail_slice-pos (suc n) l h = refl

-- Whatever a client asks for, the tail is a suffix of the lines of the file: it has as many lines as
-- were asked for, at least 1 and at most 8000, or all of them where the file has fewer.
pub tail_slice-suffix :
    (arg : Option Text) (l : List Text)
    → (1 ≤ tail_lines arg)
      × (tail_lines arg ≤ 8000)
      × (length (tail_slice (pos (tail_lines arg)) l) ≡ min (tail_lines arg) (length l))
      × (take (length l - tail_lines arg) l ++ tail_slice (pos (tail_lines arg)) l ≡ l)
unfolding tail_lines
tail_slice-suffix arg l =
    let (low, high) = lines_or_default_bounds (parse_int (or_else arg (codes "200"))) in
    let n = lines_or_default (parse_int (or_else arg (codes "200"))) in
    (
      low,
      high,
      ap length (tail_slice-pos n l low) ∙ length-drop (length l - n) l ∙ omega arith,
      ap (λ rest. take (length l - n) l ++ rest) (tail_slice-pos n l low)
          ∙ take-append-drop (length l - n) l,
    )
