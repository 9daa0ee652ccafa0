-- ===== src/Web/TestReset/Dumped.antt =====
-- That a dump compares tables by what they hold, in whatever order.
use mathlib.Core.List.{Permᴰ}
use postfixblocker.Prelude.{◌≡◌, refl, sym, ap, ap₂, ◌∙◌, Bool, true, false, Option, List, []}
use postfixblocker.Text.{Text}
use postfixblocker.Exec.{ok}
use postfixblocker.Postfix.Maps.{BlockEntry}
use postfixblocker.Blocker.Signature.{sorted-Perm}
use postfixblocker.Web.Json.{Json, Fields, arr}
use postfixblocker.Web.Addresses.{not_ready}
use postfixblocker.Web.TestReset.{
  Prop, Tables, is_enabled, when_enabled, seeds_of, reset_state, dump_response, dump_state,
}
use postfixblocker.Web.TestReset.Seeded.{IsTables, dicts, seed_entries, reset_state-Reset}

dump_response-Perm :
    (k l : List BlockEntry) (ps : List Prop) → Permᴰ k l → dump_response k ps ≡ dump_response l ps
unfolding dump_response
dump_response-Perm k l ps p = rw (sorted-Perm p) refl

module _ (enable : Option Text) (ready : Option Bool) (on : is_enabled enable ≡ true)
    (up : not_ready ready ≡ false) where
  dump_state_lem :
      (t : Tables) (laws : IsTables t) (s : t.Db)
      → (dump_state t enable ready s).0 ≡ ok (dump_response (laws.blocked s) (laws.props s))
  unfolding dump_state when_enabled
  dump_state_lem t laws s = rw (on, up, laws.select_blocked_lem s, laws.select_props_lem s) refl

  dump-reset :
      (t : Tables) (laws : IsTables t) (repr : Json → Text) (body : Option Json) (fs : List Fields)
      (s : t.Db)
      → seeds_of body ≡ ok (arr (dicts fs))
      → (dump_state t enable ready (reset_state t repr enable ready body s).1).0
        ≡ ok (dump_response (seed_entries t laws repr fs) [])
  dump-reset t laws repr body fs s seeds =
      let done = reset_state-Reset t laws repr enable ready body fs s on up seeds in
      dump_state_lem t laws (reset_state t repr enable ready body s).1
      ∙ ap₂ (λ k ps. ok (dump_response k ps)) done.rows done.no_props

  -- Where the routes are enabled and the databases are ready and answer: two databases that were
  -- reset with lists of dicts whose seeds with a pattern are the same, in whatever order each, dump
  -- the same reply, whatever they held before.
  pub dump_state-reset_state :
      (t u : Tables) (t_laws : IsTables t) (u_laws : IsTables u) (repr : Json → Text)
      (body other : Option Json) (fs gs : List Fields) (s : t.Db) (v : u.Db)
      → seeds_of body ≡ ok (arr (dicts fs))
      → seeds_of other ≡ ok (arr (dicts gs))
      → Permᴰ (seed_entries t t_laws repr fs) (seed_entries u u_laws repr gs)
      → (dump_state t enable ready (reset_state t repr enable ready body s).1).0
        ≡ (dump_state u enable ready (reset_state u repr enable ready other v).1).0
  dump_state-reset_state t u t_laws u_laws repr body other fs gs s v seeds others perm =
      dump-reset t t_laws repr body fs s seeds
      ∙ ap ok (dump_response-Perm _ _ [] perm)
      ∙ sym (dump-reset u u_laws repr other gs v others)
