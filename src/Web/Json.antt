-- ===== src/Web/Json.antt =====
-- JSON values as Python has them after `get_json`. Numbers are integers; a `float` is not modelled.
-- An object's keys are distinct, as in a `dict`.
use postfixblocker.Prelude.{
  zero, suc, Bool, true, false, not, Option, none, some, [], ◌∷◌, if◌then◌else◌,
}
use postfixblocker.Text.{Text, codes, ◌==◌, is_empty, strip}
use postfixblocker.Text.Decimal.{ℤ, pos, negsuc, parse_int, show_int}
use postfixblocker.Exec.{Exn, attribute_error, type_error, value_error, Outcome, ok, raised}

mutual
  pub data Json : Type 0 where
    null : Json
    bool : Bool → Json
    num : ℤ → Json
    str : Text → Json
    arr : Items → Json
    obj : Fields → Json

  pub data Items : Type 0 where
    nil : Items
    cons : Json → Items → Items

  pub data Fields : Type 0 where
    end : Fields
    field : Text → Json → Fields → Fields

unfoldable pub get_field : Text → Fields → Option Json
get_field key end = none
get_field key (field k v rest) = if k == key then some v else get_field key rest

-- `bool(value)`.
abbrev pub truthy : Json → Bool
truthy null = false
truthy (bool b) = b
truthy (num (pos zero)) = false
truthy (num (pos (suc n))) = true
truthy (num (negsuc n)) = true
truthy (str s) = not (is_empty s)
truthy (arr nil) = false
truthy (arr (cons v vs)) = true
truthy (obj end) = false
truthy (obj (field k v rest)) = true

-- `value` where the key is missing means `data.get(key, default)`.
abbrev pub get_or : Option Json → Json → Json
get_or none default = default
get_or (some v) default = v

abbrev pub no_attribute : Exn
no_attribute = record { kind = attribute_error; message = codes "object has no attribute" }

-- The body as a `dict`: `get_json() or {}`, and `.get` on what is neither a dict nor falsy.
abbrev pub fields_or_empty : Json → Outcome Fields
fields_or_empty (obj fields) = ok fields
fields_or_empty null = ok end
fields_or_empty (bool false) = ok end
fields_or_empty (bool true) = raised no_attribute
fields_or_empty (num (pos zero)) = ok end
fields_or_empty (num (pos (suc n))) = raised no_attribute
fields_or_empty (num (negsuc n)) = raised no_attribute
fields_or_empty (str []) = ok end
fields_or_empty (str (c ∷ s)) = raised no_attribute
fields_or_empty (arr nil) = ok end
fields_or_empty (arr (cons v vs)) = raised no_attribute

-- The same with no `or {}`.
abbrev pub fields_of : Json → Outcome Fields
fields_of (obj fields) = ok fields
fields_of _ = raised no_attribute

-- `(data.get(key) or default).strip()`.
abbrev strip_str : Json → Outcome Text
strip_str (str s) = ok (strip s)
strip_str _ = raised no_attribute

unfoldable pub stripped_or : Option Json → Text → Outcome Text
stripped_or none default = ok (strip default)
stripped_or (some v) default = if truthy v then strip_str v else ok (strip default)

abbrev pub int_or_error : Option ℤ → Outcome ℤ
int_or_error none =
    raised (record { kind = value_error; message = codes "invalid literal for int()" })
int_or_error (some n) = ok n

-- `int(value)`.
unfoldable pub int_of : Json → Outcome ℤ
int_of (num n) = ok n
int_of (bool true) = ok (pos 1)
int_of (bool false) = ok (pos 0)
int_of (str s) = int_or_error (parse_int s)
int_of _ =
    raised
      (record { kind = type_error; message = codes "int() argument must be a string or a number" })

-- `str(value)`; `repr` is Python's text of a list or a dict.
unfoldable pub text_of : (Json → Text) → Json → Text
text_of repr null = codes "None"
text_of repr (bool true) = codes "True"
text_of repr (bool false) = codes "False"
text_of repr (num n) = show_int n
text_of repr (str s) = s
text_of repr v = repr v
