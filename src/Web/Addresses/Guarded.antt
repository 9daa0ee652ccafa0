-- ===== src/Web/Addresses/Guarded.antt =====
-- The routes of the addresses, for a client that is not logged in.
use postfixblocker.Prelude.{ℕ, ◌≡◌, refl, Bool, Option}
use postfixblocker.Text.{Text}
use postfixblocker.Exec.{Outcome}
use postfixblocker.Web.Json.{Json}
use postfixblocker.Web.Auth.{Env}
use postfixblocker.Web.Auth.Guard.{IsRefused, refusal}
use postfixblocker.Web.Addresses.{Blocked, Api, add_address, delete_address, update_address}
use postfixblocker.Web.Addresses.Listing.{Queries, Args, list_addresses}

module _ (b : Blocked) (env : Env) (ready : Option Bool) (w : Api b env)
    (h : IsRefused env w.session) where
  pub list_addresses-refused :
      (queries : Queries b.Db) (args : Args)
      → list_addresses b env queries ready args w ≡ (refusal, w)
  unfolding list_addresses
  list_addresses-refused queries args = rw h refl

  pub add_address-refused :
      (pid : Outcome Text) (body : Option Json) → add_address b env ready pid body w ≡ (refusal, w)
  unfolding add_address
  add_address-refused pid body = rw h refl

  pub delete_address-refused :
      (pid : Outcome Text) (entry_id : ℕ) → delete_address b env ready pid entry_id w ≡ (refusal, w)
  unfolding delete_address
  delete_address-refused pid entry_id = rw h refl

  pub update_address-refused :
      (pid : Outcome Text) (entry_id : ℕ) (body : Option Json)
      → update_address b env ready pid entry_id body w ≡ (refusal, w)
  unfolding update_address
  update_address-refused pid entry_id body = rw h refl
