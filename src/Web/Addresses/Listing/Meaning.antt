-- ===== src/Web/Addresses/Listing/Meaning.antt =====
-- What the arguments of a listing by id ask for.
use postfixblocker.Prelude.{
  suc, ◌≡◌, refl, sym, ap, ◌∙◌, Bool, true, false, not, ◌&&◌, ◌||◌, Option, none, some, List, [],
  ◌∷◌, ◌++◌, length, keep, eqb, ltb, arith, if◌then◌else◌, Bool-cases, inl, inr,
}
use postfixblocker.Text.{Text, codes, ◌==◌, is_empty, lower, upper}
use postfixblocker.Text.Decimal.{ℤ, pos, negsuc, parse_int}
use postfixblocker.Web.Json.{truthy}
use postfixblocker.Web.Addresses.Query.{
  Filter, pattern_like, id_is, is_regex_is, arg, is_one_of, like_filter, id_filter, kind_filter,
  build_filters, is_descending,
}
use postfixblocker.Web.Addresses.Listing.{Listed, Args, filters_of}

-- The texts that ask for regular expressions, and for literals.
abbrev pub yes_words : List Text
yes_words = codes "1" ∷ codes "true" ∷ codes "t" ∷ codes "yes" ∷ codes "y" ∷ []

abbrev pub no_words : List Text
no_words = codes "0" ∷ codes "false" ∷ codes "f" ∷ codes "no" ∷ codes "n" ∷ []

-- `dir`: descending where it is "desc" in whatever case.
abbrev pub wants_desc : Option Text → Bool
wants_desc none = false
wants_desc (some d) = lower d == codes "desc"

pub wants_desc-is_descending : (dir : Option Text) → is_descending dir ≡ wants_desc dir
unfolding is_descending
wants_desc-is_descending none = refl
wants_desc-is_descending (some d) = refl

-- The rows by their ids, upwards or downwards.
abbrev comes_first : Bool → Listed → Listed → Bool
comes_first desc r x = if desc then ltb x.id r.id else ltb r.id x.id

unfoldable pub insert_row : Bool → Listed → List Listed → List Listed
insert_row desc r [] = r ∷ []
insert_row desc r (x ∷ l) =
    let rest = insert_row desc r l in if comes_first desc r x then r ∷ x ∷ l else x ∷ rest

unfoldable pub in_order : Bool → List Listed → List Listed
in_order desc [] = []
in_order desc (r ∷ l) = insert_row desc r (in_order desc l)

length-insert_row :
    (desc : Bool) (r : Listed) (l : List Listed) → length (insert_row desc r l) ≡ suc (length l)
unfolding insert_row
length-insert_row desc r [] = refl
length-insert_row desc r (x ∷ l) = elim (Bool-cases (comes_first desc r x)) [
  | inl e ↦ rw e refl
  | inr e ↦ rw e (ap suc (length-insert_row desc r l))
]

pub length-in_order : (desc : Bool) (l : List Listed) → length (in_order desc l) ≡ length l
unfolding in_order
length-in_order desc [] = refl
length-in_order desc (r ∷ l) =
    length-insert_row desc r (in_order desc l) ∙ ap suc (length-in_order desc l)

-- `like` is LIKE of the database, on the text between the two `%` and a pattern.
module _ (like : Text → Text → Bool) where
  -- The conditions of the query on a row.
  abbrev pub holds : Filter → Listed → Bool
  holds (pattern_like v) r = like v r.pattern
  holds (id_is (pos n)) r = eqb r.id n
  holds (id_is (negsuc n)) r = false
  holds (is_regex_is true) r = truthy r.is_regex
  holds (is_regex_is false) r = not (truthy r.is_regex)

  -- The rows that pass all of them.
  abbrev pub passing : List Filter → List Listed → List Listed
  passing [] rows = rows
  passing (f ∷ fs) rows = passing fs (keep (holds f) rows)

  -- The tests that a row must pass: an empty text asks for nothing.
  abbrev pub has_text : Text → Listed → Bool
  has_text q r = is_empty q || like (upper q) r.pattern

  abbrev pub has_id : Option ℤ → Listed → Bool
  has_id none r = true
  has_id (some (pos n)) r = eqb r.id n
  has_id (some (negsuc n)) r = false

  abbrev pub has_kind : Text → Listed → Bool
  has_kind s r =
      if is_one_of yes_words s
      then truthy r.is_regex
      else if is_one_of no_words s
      then not (truthy r.is_regex)
      else true

  abbrev pub passes : Args → Listed → Bool
  passes args r =
      has_text (arg args.q) r
      && (has_text (arg args.f_pattern) r
          && (has_id (parse_int (arg args.f_id)) r && has_kind (lower (arg args.f_is_regex)) r))

  keep_all : (l : List Listed) → keep (λ r. true) l ≡ l
  keep_all [] = refl
  keep_all (x ∷ l) = ap (λ t. x ∷ t) (keep_all l)

  keep-same :
      (p q : Listed → Bool) (l : List Listed) → ((r : Listed) → p r ≡ q r) → keep p l ≡ keep q l
  keep-same p q [] same = refl
  keep-same p q (x ∷ l) same = ground (arith, same x, keep-same p q l same)

  keep-keep : (p q : Listed → Bool) (l : List Listed) → keep p (keep q l) ≡ keep (λ r. q r && p r) l
  keep-keep p q [] = refl
  keep-keep p q (x ∷ l) = ground (arith, keep-keep p q l)

  passing-append :
      (fs gs : List Filter) (rows : List Listed)
      → passing (fs ++ gs) rows ≡ passing gs (passing fs rows)
  passing-append [] gs rows = refl
  passing-append (f ∷ fs) gs rows = passing-append fs gs (keep (holds f) rows)

  passing-like_filter :
      (q : Text) (rows : List Listed) → passing (like_filter q) rows ≡ keep (has_text q) rows
  passing-like_filter [] rows = sym (keep_all rows)
  passing-like_filter (c ∷ q) rows = refl

  passing-id_filter :
      (n : Option ℤ) (rows : List Listed) → passing (id_filter n) rows ≡ keep (has_id n) rows
  passing-id_filter none rows = sym (keep_all rows)
  passing-id_filter (some (pos n)) rows = refl
  passing-id_filter (some (negsuc n)) rows = refl

  passing-kind_filter :
      (s : Text) (rows : List Listed) → passing (kind_filter s) rows ≡ keep (has_kind s) rows
  passing-kind_filter s rows = elim (Bool-cases (is_one_of yes_words s)) [
    | inl e ↦ rw e (keep-same (holds (is_regex_is true)) (has_kind s) rows (λ r. rw e refl))
    | inr e ↦ elim (Bool-cases (is_one_of no_words s)) [
      | inl f ↦
          rw (e, f) (keep-same (holds (is_regex_is false)) (has_kind s) rows (λ r. rw (e, f) refl))
      | inr f ↦
          rw (e, f)
            (sym (keep_all rows) ∙ keep-same (λ r. true) (has_kind s) rows (λ r. rw (e, f) refl))
    ]
  ]

  -- The query's conditions are these tests.
  pub passing-passes :
      (args : Args) (rows : List Listed) → passing (filters_of args) rows ≡ keep (passes args) rows
  unfolding build_filters
  passing-passes args rows =
      rw
        (
          passing-append, passing-append, passing-append, passing-like_filter, passing-like_filter,
          passing-id_filter, passing-kind_filter, keep-keep, keep-keep, keep-keep,
        )
        refl
