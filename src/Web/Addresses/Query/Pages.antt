-- ===== src/Web/Addresses/Query/Pages.antt =====
-- The page arguments, and the pages that they give.
use postfixblocker.Prelude.{
  ap₂, max, ℕ, zero, suc, ◌+◌, ◌-◌, ◌*◌, ◌≤◌, ◌≡◌, refl, sym, ap, ◌∙◌, Option, none, some, List, [],
  ◌∷◌, ◌++◌, arith, take, drop,
}
use postfixblocker.Text.{Text}
use postfixblocker.Text.Decimal.{ℤ, pos, negsuc, show_int}
use postfixblocker.Text.Decimal.RoundTrip.{parse_int-show_int}
use postfixblocker.Web.Addresses.Query.{
  at_least_one, page_of, page_size_of, int_arg, parse_page_args, page_bounds,
}

at_least_one-le : (n : ℤ) → 1 ≤ at_least_one n
at_least_one-le (pos n) = ground arith
at_least_one-le (negsuc n) = ground arith

page_of-le : (n : Option ℤ) → 1 ≤ page_of n
page_of-le none = omega arith
page_of-le (some n) = at_least_one-le n

page_size_of_bounds : (n : Option ℤ) → (1 ≤ page_size_of n) × (page_size_of n ≤ 500)
page_size_of_bounds none = (omega arith, omega arith)
page_size_of_bounds (some n) = (omega (arith, at_least_one-le n), omega (arith, at_least_one-le n))

-- Whatever the two arguments are, the page is at least 1 and its size lies between 1 and 500.
pub parse_page_args_bounds :
    (page page_size : Option Text)
    → (1 ≤ (parse_page_args page page_size).0)
      × (1 ≤ (parse_page_args page page_size).1)
      × ((parse_page_args page page_size).1 ≤ 500)
unfolding parse_page_args
parse_page_args_bounds page page_size =
    let (low, high) = page_size_of_bounds (int_arg page_size (pos 25)) in
    (page_of-le (int_arg page (pos 1)), low, high)

-- The two arguments as the web interface writes them.
pub parse_page_args-show_int :
    (k size : ℕ)
    → 1 ≤ size
    → size ≤ 500
    → parse_page_args (some (show_int (pos (suc k)))) (some (show_int (pos size))) ≡ (suc k, size)
unfolding parse_page_args
parse_page_args-show_int k size low high =
    rw (parse_int-show_int (pos (suc k)), parse_int-show_int (pos size))
      (ap₂ (λ x y. (x, y)) {x = max (suc k) 1} (omega arith) (omega arith))

module _ {ℓ} {A : Type ℓ} where
  -- `OFFSET … LIMIT …` of a query, on the rows that it would have without.
  abbrev pub window : ℕ × ℕ → List A → List A
  window (offset, limit) rows = take limit (drop offset rows)

  -- The pages from 1 to `k`, one behind the other.
  abbrev pub first_pages : ℕ → ℕ → List A → List A
  first_pages zero size rows = []
  first_pages (suc k) size rows = first_pages k size rows ++ window (page_bounds (suc k, size)) rows

  take_nil : (n : ℕ) → take {A = A} n [] ≡ []
  take_nil zero = refl
  take_nil (suc n) = refl

  take-take-drop :
      (m n : ℕ) (rows : List A) → take m rows ++ take n (drop m rows) ≡ take (m + n) rows
  take-take-drop zero n rows = ap (λ k. take k rows) (omega arith)
  take-take-drop (suc m) n [] = take_nil n ∙ sym (take_nil (suc m + n))
  take-take-drop (suc m) n (x ∷ rows) =
      ap (◌∷◌ x) (take-take-drop m n rows)
      ∙ ap (λ k. take k (x ∷ rows)) {x = suc (m + n)} (omega arith)

  -- The first pages, put together, are that many rows of the whole result: no row is left out, and
  -- none comes twice.
  pub first_pages-take :
      (k size : ℕ) (rows : List A) → first_pages k size rows ≡ take (k * size) rows
  unfolding page_bounds
  first_pages-take zero size rows = ap (λ k. take k rows) {x = 0} (omega arith)
  first_pages-take (suc k) size rows =
      ap (λ front. front ++ take size (drop ((suc k - 1) * size) rows))
        (first_pages-take k size rows)
      ∙ ap (λ j. take (k * size) rows ++ take size (drop (j * size) rows)) {x = suc k - 1} {y = k}
          (omega arith)
      ∙ take-take-drop (k * size) size rows
      ∙ ap (λ j. take j rows) {x = k * size + size} (omega arith)
