-- ===== src/Web/Addresses/Listing/Walk.antt =====
-- A client that asks for the pages one after the other.
use postfixblocker.Prelude.{
  ℕ, zero, suc, ◌*◌, ◌≤◌, ◌≡◌, refl, sym, ap, ap₂, ◌∙◌, Bool, false, ◌&&◌, Option, some, List, [],
  ◌∷◌, ◌++◌, map, map-append, take, drop, length, keep, arith,
}
use postfixblocker.Text.{Text, codes, ◌==◌, strip, is_space}
use postfixblocker.Text.Decimal.{pos, show_int}
use postfixblocker.Exec.{Outcome, ok, raised}
use postfixblocker.Web.Json.{Json, Items, arr, obj, nil, cons, get_field}
use postfixblocker.Web.Http.{Response}
use postfixblocker.Web.Auth.{Env, text_or, is_unset, is_auth_required}
use postfixblocker.Web.Addresses.{Blocked, Api, not_ready}
use postfixblocker.Web.Addresses.Query.{by_id, Filter, parse_page_args, sort_column, page_bounds}
use postfixblocker.Web.Addresses.Query.Pages.{
  window, first_pages, first_pages-take, parse_page_args-show_int,
}
use postfixblocker.Web.Addresses.Listing.Meaning.{
  wants_desc, wants_desc-is_descending, in_order, length-in_order, passing, passes, passing-passes,
}
use postfixblocker.Web.Addresses.Listing.{
  Listed, Queries, Args, row_to_dict, items_of, filters_of, sort_of, page_reply, list_paged,
  list_addresses,
}

-- What is asked of a database that answers: its rows, its LIKE, the number of the rows that pass the
-- filters, and a page of those rows by their ids, which are unique, so that the order is that of any
-- query.
pub record IsAnswering {Db : Type 0} (queries : Queries Db) : Type 0 where
  pub rows : Db → List Listed
  pub like : Text → Text → Bool
  pub connects : (s : Db) → queries.connect s ≡ ok tt
  pub total_lem :
      (fs : List Filter) (s : Db)
      → queries.total fs s ≡ ok (some (length (passing like fs (rows s))))
  pub page_lem :
      (fs : List Filter) (d : Bool) (offset limit : ℕ) (s : Db)
      → queries.page fs by_id d (offset, limit) s
        ≡ ok (take limit (drop offset (in_order d (passing like fs (rows s)))))

abbrev list_of : Items → List Json
list_of nil = []
list_of (cons v vs) = v ∷ list_of vs

list_of-items_of : (vs : List Json) → list_of (items_of vs) ≡ vs
list_of-items_of [] = refl
list_of-items_of (v ∷ vs) = ap (◌∷◌ v) (list_of-items_of vs)

abbrev of_arr : Option Json → List Json
of_arr (some (arr vs)) = list_of vs
of_arr _ = []

-- The list at `items` of a reply.
abbrev pub body_items : Json → List Json
body_items (obj fields) = of_arr (get_field (codes "items") fields)
body_items _ = []

abbrev pub reply_items : Outcome Response → List Json
reply_items (ok r) = body_items r.body
reply_items (raised e) = []

-- The arguments with a page number and a page size.
abbrev pub at_page : ℕ → ℕ → Args → Args
at_page k size args = record args {
  page = some (show_int (pos k));
  page_size = some (show_int (pos size));
}

take_all : {A : Type 0} (n : ℕ) (l : List A) → length l ≤ n → take n l ≡ l
take_all zero [] h = refl
take_all zero (x ∷ l) h = ground arith
take_all (suc n) [] h = refl
take_all (suc n) (x ∷ l) h = ap (◌∷◌ x) (take_all n l (omega (arith, h)))

page_reply-items :
    (args : Args) (total : ℕ) (rows : List Listed)
    → reply_items (ok (page_reply args total rows)) ≡ map row_to_dict rows
unfolding page_reply get_field ◌==◌
page_reply-items args total rows = list_of-items_of (map row_to_dict rows)

module _ (b : Blocked) (env : Env) (queries : Queries b.Db) (laws : IsAnswering queries) where
  open b use {Db}
  open laws use {rows, like, connects, total_lem, page_lem}

  -- All rows that pass the tests of a request, in its order.
  abbrev pub matching : Args → Db → List Listed
  matching args s = in_order (wants_desc args.dir) (keep (passes like args) (rows s))

  sort_column-id :
      (args : Args) → args.sort ≡ some (codes "id") → sort_column (sort_of args) ≡ by_id
  unfolding sort_column strip is_space ◌==◌
  sort_column-id args e = ap (λ o. sort_column (strip (text_or o (codes "pattern")))) e

  list_paged_lem :
      (args : Args) (w : Api b env)
      → args.sort ≡ some (codes "id")
      → list_paged b env queries args w ≡ (
        ok (
            page_reply args (length (matching args w.db)) (
              window
                (page_bounds (parse_page_args args.page args.page_size))
                (matching args w.db))),
        w,
      )
  unfolding list_paged
  list_paged_lem args w e =
      let bounds = page_bounds (parse_page_args args.page args.page_size) in
      rw
        (
          connects w.db,
          total_lem (filters_of args) w.db,
          sort_column-id args e,
          wants_desc-is_descending args.dir,
          page_lem (filters_of args) (wants_desc args.dir) bounds.0 bounds.1 w.db,
          passing-passes like args (rows w.db),
          length-in_order (wants_desc args.dir) (keep (passes like args) (rows w.db)),
        )
        refl

  -- A page that a client asks for by its numbers.
  list_addresses-page :
      (ready : Option Bool) (args : Args) (w : Api b env) (k size : ℕ)
      → args.sort ≡ some (codes "id")
      → (is_auth_required env && is_unset w.session.admin_user) ≡ false
      → not_ready ready ≡ false
      → 1 ≤ size
      → size ≤ 500
      → list_addresses b env queries ready (at_page (suc k) size args) w ≡ (
        ok (
            page_reply
              (at_page (suc k) size args)
              (length (matching args w.db))
              (window (page_bounds (suc k, size)) (matching args w.db))),
        w,
      )
  unfolding list_addresses
  list_addresses-page ready args w k size by allowed up low high =
      rw (allowed, up)
        (list_paged_lem (at_page (suc k) size args) w by
          ∙ ap
              (λ bounds. (
                ok (
                    page_reply (at_page (suc k) size args) (length (matching args w.db))
                      (window (page_bounds bounds) (matching args w.db))),
                w,
              ))
              (parse_page_args-show_int k size low high))

  -- The items of the pages 1 to k, one behind the other.
  abbrev pub walk : Option Bool → Args → Api b env → ℕ → ℕ → List Json
  walk ready args w zero size = []
  walk ready args w (suc k) size =
      walk ready args w k size
      ++ reply_items (list_addresses b env queries ready (at_page (suc k) size args) w).0

  walk-first_pages :
      (ready : Option Bool) (args : Args) (w : Api b env) (k size : ℕ)
      → args.sort ≡ some (codes "id")
      → (is_auth_required env && is_unset w.session.admin_user) ≡ false
      → not_ready ready ≡ false
      → 1 ≤ size
      → size ≤ 500
      → walk ready args w k size ≡ map row_to_dict (first_pages k size (matching args w.db))
  walk-first_pages ready args w zero size by allowed up low high = refl
  walk-first_pages ready args w (suc k) size by allowed up low high =
      ap₂ (◌++◌) (walk-first_pages ready args w k size by allowed up low high) (
        ap (λ r. reply_items r.0) (list_addresses-page ready args w k size by allowed up low high)
        ∙ page_reply-items (at_page (suc k) size args) (length (matching args w.db))
            (window (page_bounds (suc k, size)) (matching args w.db)))
      ∙ sym (map-append row_to_dict (first_pages k size (matching args w.db)) _)

  -- A client that may call the listing of a ready database that answers, sorted by id, and asks for
  -- the pages 1 to k of a size from 1 to 500, gets exactly the rows that pass the tests, each once and
  -- by their ids, downwards where `dir` is "desc" and else upwards, where k pages have room for them.
  -- The tests are, for the arguments that are not blank: `q` and `f_pattern` in capitals are in the
  -- pattern for the database's LIKE, the id is the number `f_id`, and a row is a regular expression,
  -- or is none, for the words that `f_is_regex` may be; another word, and an `f_id` that is no number,
  -- ask for nothing.
  pub list_addresses-walk :
      (ready : Option Bool) (args : Args) (w : Api b env) (k size : ℕ)
      → args.sort ≡ some (codes "id")
      → (is_auth_required env && is_unset w.session.admin_user) ≡ false
      → not_ready ready ≡ false
      → 1 ≤ size
      → size ≤ 500
      → length (matching args w.db) ≤ k * size
      → walk ready args w k size ≡ map row_to_dict (matching args w.db)
  list_addresses-walk ready args w k size by allowed up low high enough =
      walk-first_pages ready args w k size by allowed up low high
      ∙ ap (map row_to_dict) (
          first_pages-take k size (matching args w.db)
          ∙ take_all (k * size) (matching args w.db) enough)
