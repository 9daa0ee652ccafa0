-- ===== src/Postfix/Control/Laws.antt =====
-- Which commands are run, and when Postfix is reloaded.
use postfixblocker.Prelude.{
  ℕ, ◌≡◌, refl, ◌∙◌, Bool, true, false, Option, List, [], ◌∷◌, ◌++◌, All, All-append, ap,
  Bool-cases, append_assoc, inl, inr, if◌then◌else◌,
}
use postfixblocker.Text.{Text, codes, ◌==◌}
use postfixblocker.Text.Decimal.{ℤ, pos}
use postfixblocker.Exec.{Outcome-cases, Exn, Outcome, ok, raised, handle, continue, pure, ◌>>=◌}
use postfixblocker.Postfix.Control.{
  Command, Completed, Reload, finished, transient, warning_for, is_allowed, executable, is_zero,
  postmap, postfix, postconf, literal_path, test_literal_path, run_fixed, status_rc, reload_if,
  reload_postfix, has_postfix_pcre,
}

abbrev pub AllAllowed : List Command → Type 0
AllAllowed = All (λ cmd. is_allowed (executable cmd) ≡ true)

run_fixed-allowed :
    (run : Command → Outcome Completed) (cmd : Command) (log : List Command)
    → is_allowed (executable cmd) ≡ true
    → run_fixed run cmd log ≡ (run cmd, log ++ cmd ∷ [])
unfolding run_fixed
run_fixed-allowed run cmd log h = rw h

abbrev pub succeeds : Outcome Completed → Bool
succeeds (ok c) = is_zero c.returncode
succeeds (raised e) = false

abbrev pub returns : Outcome Completed → Bool
returns (ok c) = true
returns (raised e) = false

-- The order in which the maps are to be built before Postfix is told: a step is taken only if the
-- one before it returned, and the reload only if `postfix status` succeeded.
abbrev pub steps : (Command → Outcome Completed) → Text → Text → List Command
steps run path test_path =
    (postmap ∷ path ∷ [])
    ∷ (if returns (run (postmap ∷ path ∷ []))
        then (postmap ∷ test_path ∷ [])
          ∷ (if returns (run (postmap ∷ test_path ∷ []))
              then (postfix ∷ codes "status" ∷ [])
                ∷ (if succeeds (run (postfix ∷ codes "status" ∷ []))
                    then (postfix ∷ codes "reload" ∷ []) ∷ []
                    else [])
              else [])
        else [])

postmap_allowed : (args : Command) → is_allowed (executable (postmap ∷ args)) ≡ true
unfolding is_allowed ◌==◌
postmap_allowed args = refl

postfix_allowed : (args : Command) → is_allowed (executable (postfix ∷ args)) ≡ true
unfolding is_allowed ◌==◌
postfix_allowed args = refl

run_postmap :
    (run : Command → Outcome Completed) (args : Command) (log : List Command)
    → run_fixed run (postmap ∷ args) log ≡ (run (postmap ∷ args), log ++ (postmap ∷ args) ∷ [])
run_postmap run args log = run_fixed-allowed run _ log (postmap_allowed args)

run_postfix :
    (run : Command → Outcome Completed) (args : Command) (log : List Command)
    → run_fixed run (postfix ∷ args) log ≡ (run (postfix ∷ args), log ++ (postfix ∷ args) ∷ [])
run_postfix run args log = run_fixed-allowed run _ log (postfix_allowed args)

postconf_allowed : (args : Command) → is_allowed (executable (postconf ∷ args)) ≡ true
unfolding is_allowed ◌==◌
postconf_allowed args = refl

run_postconf :
    (run : Command → Outcome Completed) (args : Command) (log : List Command)
    → run_fixed run (postconf ∷ args) log ≡ (run (postconf ∷ args), log ++ (postconf ∷ args) ∷ [])
run_postconf run args log = run_fixed-allowed run _ log (postconf_allowed args)

has_postfix_pcre-log :
    (run : Command → Outcome Completed) (log : List Command)
    → (has_postfix_pcre run log).1 ≡ log ++ (postconf ∷ codes "-m" ∷ []) ∷ []
unfolding has_postfix_pcre
has_postfix_pcre-log run log = elim (Outcome-cases (run (postconf ∷ codes "-m" ∷ []))) [
  | inr (x, e) ↦ rw (run_postconf, e)
  | inl (c, e) ↦
      rw (run_postconf, e)
        (elim (Bool-cases (is_zero c.returncode)) [ inl z ↦ rw z | inr z ↦ rw z ])
]

-- Exit code 0 of `postfix status`.
status_rc_lem :
    (run : Command → Outcome Completed) (log : List Command)
    → (rc : ℤ) × (status_rc run log ≡ (ok rc, log ++ (postfix ∷ codes "status" ∷ []) ∷ []))
      × (is_zero rc ≡ succeeds (run (postfix ∷ codes "status" ∷ [])))
unfolding status_rc
status_rc_lem run log = elim (Outcome-cases (run (postfix ∷ codes "status" ∷ []))) [
  | inr (x, e) ↦ (pos 1, rw (run_postfix, e), rw e)
  | inl (c, e) ↦ (c.returncode, rw (run_postfix, e), rw e)
]

-- The last step: the reload is started exactly if `postfix status` had exit code 0.
reload_if-log :
    (run : Command → Outcome Completed) (b : Bool) (log : List Command)
    → (reload_if run b log).1 ≡ (if b then log ++ (postfix ∷ codes "reload" ∷ []) ∷ [] else log)
unfolding reload_if
reload_if-log run false log = refl
reload_if-log run true log = elim (Outcome-cases (run (postfix ∷ codes "reload" ∷ []))) [
  | inr (x, e) ↦ rw (run_postfix, e)
  | inl (c, e) ↦ rw (run_postfix, e)
]

handle-log :
    {A : Type 0} (h : Exn → Outcome A) (r : Outcome A × List Command)
    → (handle (λ e s. (h e, s)) r).1 ≡ r.1
handle-log h (ok a, s) = refl
handle-log h (raised e, s) = refl

continue-log :
    {A B : Type 0} (f : A → Outcome B) (r : Outcome A × List Command)
    → (continue (λ a s. (f a, s)) r).1 ≡ r.1
continue-log f (ok a, s) = refl
continue-log f (raised e, s) = refl

abbrev status_cmd : Command
status_cmd = postfix ∷ codes "status" ∷ []

abbrev reload_cmd : Command
reload_cmd = postfix ∷ codes "reload" ∷ []

append_two :
    (log : List Command) (a b : Command) (rest : List Command)
    → ((log ++ a ∷ []) ++ b ∷ []) ++ rest ≡ log ++ a ∷ b ∷ rest
append_two log a b rest = simp append_assoc

-- The two steps after the maps.
finish-log :
    (run : Command → Outcome Completed) (g : ℤ → Option ℤ → Reload) (log : List Command)
    → ((status_rc run >>= λ status. reload_if run (is_zero status) >>= λ rc2. pure (g status rc2))
        log).1
      ≡ log ++ (status_cmd ∷ (if succeeds (run status_cmd) then reload_cmd ∷ [] else []))
finish-log run g log =
    let (rc, ran, zero_rc) = status_rc_lem run log in
    let reloaded : (reload_if run (is_zero rc) (log ++ status_cmd ∷ [])).1 ≡ (
        if is_zero rc
        then (log ++ status_cmd ∷ []) ++ reload_cmd ∷ []
        else log ++ status_cmd ∷ []) =
      reload_if-log run (is_zero rc) (log ++ status_cmd ∷ []) in
    ap
      (λ r.
        (continue (λ status. reload_if run (is_zero status) >>= λ rc2. pure (g status rc2)) r).1)
      ran
    ∙ continue-log (λ rc2. ok (g rc rc2)) (reload_if run (is_zero rc) (log ++ status_cmd ∷ []))
    ∙ reloaded
    ∙ rw zero_rc (elim (Bool-cases (succeeds (run status_cmd))) [
      | inl up ↦ rw up (append_assoc log _ _)
      | inr down ↦ rw down
    ])

-- `reload_postfix` runs exactly those steps, on top of what was run before.
pub reload_postfix-steps :
    (run : Command → Outcome Completed) (env : Option Text) (sizes : Option (ℕ × ℕ))
    (log : List Command)
    → (reload_postfix run env sizes log).1
      ≡ log ++ steps run (literal_path env) (test_literal_path env)
unfolding reload_postfix
reload_postfix-steps run env sizes log =
    elim (Outcome-cases (run (postmap ∷ literal_path env ∷ []))) [
      | inr (x, e) ↦ rw (run_postmap, e)
      | inl (c, e) ↦
          rw (run_postmap, e)
            (elim (Outcome-cases (run (postmap ∷ test_literal_path env ∷ []))) [
              | inr (x, e') ↦ rw (run_postmap, e') (append_assoc log _ _)
              | inl (c', e') ↦
                  rw (run_postmap, e')
                    (handle-log (λ x. ok (transient x)) _
                      ∙ finish-log run
                          (λ status rc2.
                            finished c.returncode c'.returncode rc2
                              (warning_for sizes status c.returncode c'.returncode rc2))
                          _
                      ∙ append_two log _ _ _)
            ])
    ]

allowed_if :
    (b : Bool) (cmds : List Command) → AllAllowed cmds → AllAllowed (if b then cmds else [])
allowed_if true cmds h = h
allowed_if false cmds h = tt

steps-AllAllowed :
    (run : Command → Outcome Completed) (path test_path : Text)
    → AllAllowed (steps run path test_path)
steps-AllAllowed run path test_path =
    let up : AllAllowed (reload_cmd ∷ []) = (postfix_allowed (codes "reload" ∷ []), tt) in
    let asked : AllAllowed
        (status_cmd ∷ (if succeeds (run status_cmd) then reload_cmd ∷ [] else [])) =
      (
        postfix_allowed (codes "status" ∷ []),
        allowed_if (succeeds (run status_cmd)) (reload_cmd ∷ []) up,
      ) in
    let second : AllAllowed (
        (postmap ∷ test_path ∷ [])
        ∷ (if returns (run (postmap ∷ test_path ∷ []))
            then status_cmd ∷ (if succeeds (run status_cmd) then reload_cmd ∷ [] else [])
            else [])) =
      (
        postmap_allowed (test_path ∷ []),
        allowed_if (returns (run (postmap ∷ test_path ∷ [])))
            (status_cmd ∷ (if succeeds (run status_cmd) then reload_cmd ∷ [] else [])) asked,
      ) in
    (
      postmap_allowed (path ∷ []),
      allowed_if (returns (run (postmap ∷ path ∷ [])))
          ((postmap ∷ test_path ∷ [])
            ∷ (if returns (run (postmap ∷ test_path ∷ []))
                then status_cmd ∷ (if succeeds (run status_cmd) then reload_cmd ∷ [] else [])
                else []))
          second,
    )

-- Whatever the commands return, both entry points of the module start no command outside the
-- allowlist of `_run_fixed`.
pub commands-AllAllowed :
    (run : Command → Outcome Completed) (env : Option Text) (sizes : Option (ℕ × ℕ))
    (log : List Command)
    → AllAllowed log
    → AllAllowed (reload_postfix run env sizes log).1 × AllAllowed (has_postfix_pcre run log).1
commands-AllAllowed run env sizes log h = (
  rw reload_postfix-steps (All-append _ log _ h (steps-AllAllowed run _ _)),
  rw has_postfix_pcre-log (All-append _ log _ h (postconf_allowed (codes "-m" ∷ []), tt)),
)
