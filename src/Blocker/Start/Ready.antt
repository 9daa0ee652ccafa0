-- ===== src/Blocker/Start/Ready.antt =====
-- That the wait for the database ends.
use postfixblocker.Prelude.{
  ℕ, suc, ◌+◌, ◌≡◌, refl, sym, ap, ◌∙◌, Option, none, some, List, [], ◌∷◌, ◌++◌, length, All,
  append_assoc, or_else, arith,
}
use postfixblocker.Exec.{Exn, Outcome, ok, raised}
use postfixblocker.Blocker.Start.{
  Answer, Event, initialized, slept, Start, require_engine, try_init, init_engine_and_db,
}

module _ (E : Type 0) where
  abbrev or_raised : Outcome E → Option E
  or_raised (ok e) = some e
  or_raised (raised x) = none

  -- The engine behind a pass, which only the first one that gets an engine sets.
  abbrev pub engine_after : Option E → Answer E → Option E
  engine_after none a = or_raised a.get_engine
  engine_after (some e) a = some e

  abbrev pub engines_after : Option E → List (Answer E) → Option E
  engines_after o [] = o
  engines_after o (a ∷ rest) = engines_after (engine_after o a) rest

  -- A pass that gets no engine, or whose `init_db` raises.
  pub data IsFailing (o : Option E) (a : Answer E) : Type 0 where
    no_engine : {x : Exn} → o ≡ none → a.get_engine ≡ raised x → IsFailing o a
    not_initialized :
        {e : E} {x : Exn} → engine_after o a ≡ some e → a.initialize e ≡ raised x → IsFailing o a

  abbrev pub AllFailing : Option E → List (Answer E) → Type 0
  AllFailing o [] = Unit
  AllFailing o (a ∷ rest) = IsFailing o a × AllFailing (engine_after o a) rest

  abbrev pub sleeps : List (Event E) → ℕ
  sleeps [] = 0
  sleeps (slept ∷ rest) = suc (sleeps rest)
  sleeps (initialized e ∷ rest) = sleeps rest

  sleeps-cons : (v : Event E) (l : List (Event E)) → sleeps (v ∷ l) ≡ sleeps (v ∷ []) + sleeps l
  sleeps-cons slept l = omega arith
  sleeps-cons (initialized e) l = omega arith

  -- The engine of an event is some engine.
  abbrev pub IsOn : E → Event E → Type 0
  IsOn e slept = Unit
  IsOn e (initialized d) = d ≡ e

  -- What the loop returns and leaves: the engine, the sleeps, and `init_db` called with that engine
  -- alone.
  pub record IsReady (e : E) (n : ℕ) (l : List (Event E)) (r : Option E × Start E) : Type 0 where
    pub done : List (Event E)
    pub returns : r ≡ (some e, record { engine = some e; events = l ++ done })
    pub sleeps_lem : sleeps done ≡ n
    pub on_engine : All (IsOn e) done

  require_engine-none :
      (r : Outcome E) (e : E) (l : List (Event E))
      → or_raised r ≡ some e
      → require_engine E r none (record { engine = none; events = l })
        ≡ (ok e, record { engine = some e; events = l })
  unfolding require_engine
  require_engine-none (ok d) e l h =
      ap (λ o. (ok (or_else o e), record { engine = o; events = l })) h
  require_engine-none (raised x) e l h = ground arith

  require_engine_lem :
      (o : Option E) (a : Answer E) (e : E) (l : List (Event E))
      → engine_after o a ≡ some e
      → require_engine E a.get_engine o (record { engine = o; events = l })
        ≡ (ok e, record { engine = some e; events = l })
  require_engine_lem none a e l h = require_engine-none a.get_engine e l h
  require_engine_lem (some d) a e l h =
      unfold require_engine in ap (λ o. (ok (or_else o e), record { engine = o; events = l })) h

  try_init-ok :
      (o : Option E) (a : Answer E) (e : E) (l : List (Event E))
      → engine_after o a ≡ some e
      → a.initialize e ≡ ok tt
      → try_init E a (record { engine = o; events = l })
        ≡ (ok e, record { engine = some e; events = l ++ initialized e ∷ [] })
  unfolding try_init
  try_init-ok o a e l h i = rw (require_engine_lem o a e l h, i) refl

  try_init-raised :
      (o : Option E) (a : Answer E) (e : E) (x : Exn) (l : List (Event E))
      → engine_after o a ≡ some e
      → a.initialize e ≡ raised x
      → try_init E a (record { engine = o; events = l })
        ≡ (raised x, record { engine = some e; events = l ++ initialized e ∷ [] })
  unfolding try_init
  try_init-raised o a e x l h i = rw (require_engine_lem o a e l h, i) refl

  without_engine :
      (o : Option E) (a : Answer E) (x : Exn) (l : List (Event E))
      → o ≡ none
      → a.get_engine ≡ raised x
      → try_init E a (record { engine = o; events = l })
        ≡ (raised x, record { engine = engine_after o a; events = l })
  unfolding try_init require_engine
  without_engine none a x l p h = rw h refl
  without_engine (some e) a x l p h = ground arith

  -- The engine stays once there is one.
  engines_after-some : (e : E) (rest : List (Answer E)) → engines_after (some e) rest ≡ some e
  engines_after-some e [] = refl
  engines_after-some e (a ∷ rest) = engines_after-some e rest

  -- An event in front of those of a later state.
  in_front :
      (e : E) (n : ℕ) (l : List (Event E)) (v : Event E) (r : Option E × Start E)
      → IsReady e n (l ++ v ∷ []) r
      → IsOn e v
      → (m : ℕ) → sleeps (v ∷ []) + n ≡ m
      → IsReady e m l r
  in_front e n l v r h on m count = record {
    done = v ∷ h.done;
    returns =
        h.returns
        ∙ ap (λ m. (some e, record { engine = some e; events = m }))
            (append_assoc l (v ∷ []) h.done);
    sleeps_lem = sleeps-cons v h.done ∙ ap (λ k. sleeps (v ∷ []) + k) h.sleeps_lem ∙ count;
    on_engine = (on, h.on_engine);
  }

  after_failure :
      (o p : Option E) (a : Answer E) (rest : List (Answer E)) (e : E) (n : ℕ)
      (l m : List (Event E)) (x : Exn)
      → try_init E a (record { engine = o; events = l })
        ≡ (raised x, record { engine = p; events = m })
      → IsReady e n
          (m ++ slept ∷ [])
          (init_engine_and_db E rest (record { engine = p; events = m ++ slept ∷ [] }))
      → IsReady e (suc n) m (init_engine_and_db E (a ∷ rest) (record { engine = o; events = l }))
  unfolding init_engine_and_db
  after_failure o p a rest e n l m x h ready =
      rw h (in_front e n m slept _ ready tt (suc n) (omega arith))

  same_engine :
      (o : Option E) (a last : Answer E) (before : List (Answer E)) (d e : E)
      → engine_after o a ≡ some d
      → engine_after (engines_after (engine_after o a) before) last ≡ some e
      → d ≡ e
  same_engine o a last before d e h g =
      ap (λ p. or_else p d)
        (sym (
            ap (λ p. engine_after (engines_after p before) last) h
            ∙ ap (λ p. engine_after p last) (engines_after-some d before))
          ∙ g)

  loop_lem :
      (before : List (Answer E)) (last : Answer E) (after : List (Answer E)) (e : E) (o : Option E)
      (l : List (Event E))
      → AllFailing o before
      → engine_after (engines_after o before) last ≡ some e
      → last.initialize e ≡ ok tt
      → IsReady e
          (length before)
          l
          (init_engine_and_db E (before ++ last ∷ after) (record { engine = o; events = l }))
  loop_lem [] last after e o l h g i = record {
    done = initialized e ∷ [];
    returns = unfold init_engine_and_db in rw (try_init-ok o last e l g i) refl;
    sleeps_lem = refl;
    on_engine = (refl, tt);
  }
  loop_lem (a ∷ before) last after e o l h g i = elim h.0 [
    | no_engine {x = x} p q ↦
        after_failure o (engine_after o a) a (before ++ last ∷ after) e (length before) l l x
          (without_engine o a x l p q)
          (loop_lem before last after e (engine_after o a) (l ++ slept ∷ []) h.1 g i)
    | not_initialized {e = d} {x = x} p q ↦
        in_front e (suc (length before)) l (initialized d) _
          (after_failure o (engine_after o a) a (before ++ last ∷ after) e (length before) l
            (l ++ initialized d ∷ []) x
            (try_init-raised o a d x l p q
              ∙ ap (λ r. (raised x, record { engine = r; events = l ++ initialized d ∷ [] }))
                  (sym p))
            (loop_lem before last after e (engine_after o a)
              ((l ++ initialized d ∷ []) ++ slept ∷ []) h.1 g i))
          (same_engine o a last before d e p g) (suc (length before)) (omega arith)
  ]

  -- The loop returns at the first pass that gets through: where the passes before it fail and then an engine, the
  -- first that was got, is initialized, that engine is returned, after one sleep for each pass that
  -- failed, and `init_db` was never called with another one.
  pub init_engine_and_db-IsReady :
      (before : List (Answer E)) (last : Answer E) (after : List (Answer E)) (e : E)
      → AllFailing none before
      → engine_after (engines_after none before) last ≡ some e
      → last.initialize e ≡ ok tt
      → IsReady e
          (length before)
          []
          (init_engine_and_db E (before ++ last ∷ after) (record { engine = none; events = [] }))
  init_engine_and_db-IsReady before last after e h g i = loop_lem before last after e none [] h g i
