-- ===== src/Db/Props/Laws.antt =====
-- Reading back what was set.
use postfixblocker.Prelude.{
  ◌≡◌, ◌∙◌, Option, none, some, arith, if◌then◌else◌, Option-cases, Bool-cases, inl, inr,
}
use postfixblocker.Text.{Text, ◌==◌, ==_self}
use postfixblocker.Exec.{ok}
use postfixblocker.Db.Table.{Table, IsTable}
use postfixblocker.Db.Props.{value_or, get_prop, set_prop}

module _ (t : Table (Option Text)) (laws : IsTable t) where
  open t use {Db, select, update, insert}
  open laws use {row, select_lem, update_ok, update_row, insert_ok, insert_row}

  -- On a database that answers, `get_prop` is the value of the row, and changes nothing.
  pub get_prop_lem :
      (key : Text) (default : Option Text) (s : Db)
      → get_prop t key default s ≡ (ok (value_or (row s key) default), s)
  unfolding get_prop
  get_prop_lem key default s = rw select_lem

  module _ (key : Text) (value : Option Text) (s : Db) where
    updated : Db
    updated = (update key (λ _. value) s).1

    still_missing : row s key ≡ none → row updated key ≡ none
    unfolding updated
    still_missing e = update_row key (λ _. value) s key ∙ rw (==_self, e)

    -- The three ways through `set_prop`: the row is there, or it is inserted.
    set_prop-some :
        {old : Option Text} → row s key ≡ some old → set_prop t key value s ≡ (ok tt, updated)
    unfolding set_prop updated
    set_prop-some e = rw (update_ok key (λ _. value) s, e)

    set_prop-none :
        row s key ≡ none → set_prop t key value s ≡ (ok tt, (insert key value updated).1)
    unfolding set_prop updated
    set_prop-none e =
        rw (
          update_ok key (λ _. value) s,
          e,
          insert_ok key value _ (unfold updated in still_missing e),
        )

  pub set_prop-ok : (key : Text) (value : Option Text) (s : Db) → (set_prop t key value s).0 ≡ ok tt
  set_prop-ok key value s = elim (Option-cases (row s key)) [
    | inl e ↦ rw (set_prop-none key value s e)
    | inr (old, e) ↦ rw (set_prop-some key value s e)
  ]

  pub set_prop-row :
      (key : Text) (value : Option Text) (s : Db) (j : Text)
      → row (set_prop t key value s).1 j ≡ (if key == j then some value else row s j)
  set_prop-row key value s j = elim (Option-cases (row s key)) [
    | inl e ↦
        rw (set_prop-none key value s e, insert_row key value _ j (still_missing key value s e))
          (unfold updated in rw (update_row key (λ _. value) s j, e) (ground arith))
    | inr (old, e) ↦
        rw (set_prop-some key value s e) (unfold updated in rw (update_row key (λ _. value) s j, e))
  ]

  -- On a database that answers, `set_prop` succeeds, and any `get_prop` behind it returns the value
  -- that was set, or its own default for a null one; for another key it returns what it would have
  -- returned before.
  pub get_prop-set_prop :
      (key : Text) (value : Option Text) (j : Text) (default : Option Text) (s : Db)
      → ((set_prop t key value s).0 ≡ ok tt)
        × ((get_prop t j default (set_prop t key value s).1).0
            ≡ (if key == j then ok (value_or (some value) default) else (get_prop t j default s).0))
  get_prop-set_prop key value j default s = (
    set_prop-ok key value s,
    rw (get_prop_lem, get_prop_lem, set_prop-row key value s j)
        (elim (Bool-cases (key == j)) [ inl e ↦ rw e | inr e ↦ rw e ]),
  )
