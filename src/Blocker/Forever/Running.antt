-- ===== src/Blocker/Forever/Running.antt =====
-- That the service comes to its loop, and what its files then hold.
use postfixblocker.Prelude.{
  ℕ, ◌≡◌, refl, ap, ◌∙◌, Option, none, some, List, [], ◌∷◌, ◌++◌, length, All,
}
use postfixblocker.Text.{Text}
use postfixblocker.Text.Decimal.{ℤ}
use postfixblocker.Exec.{Outcome, ok}
use postfixblocker.Postfix.Maps.{BlockEntry, MapFiles, content_of}
use postfixblocker.Postfix.Control.{Command, Completed, has_postfix_pcre}
use postfixblocker.Blocker.{Service, Seen, fetch_entries, rounds}
use postfixblocker.Blocker.Signature.{sorted}
use postfixblocker.Blocker.Rounds.{IsWritten, IsGood, step, rounds-IsWritten_from}
use postfixblocker.Blocker.Start.{Answer, init_engine_and_db}
use postfixblocker.Blocker.Start.Ready.{
  engine_after, engines_after, AllFailing, sleeps, init_engine_and_db-IsReady,
}
use postfixblocker.Blocker.Forever.{Run, Process, begun, loop, run_forever}

module _ (E : Type 0) (hash : List BlockEntry → ℤ) (run : Command → Outcome Completed)
    (attribute : Text → Option (Option ℤ)) (env : Option Text) where
  rounds-append :
      (ss : List Seen) (seen : Seen) (s : Service)
      → rounds hash run attribute env (ss ++ seen ∷ []) s
        ≡ step hash run attribute env seen (rounds hash run attribute env ss s)
  unfolding rounds
  rounds-append [] seen s = refl
  rounds-append (r ∷ ss) seen s = rounds-append ss seen _

  -- A run whose wait for the database ends: every pass fails up to one that has an engine, which
  -- `init_db` accepts.
  pub record IsStarting (r : Run E) : Type 0 where
    pub before : List (Answer E)
    pub last : Answer E
    pub later : List (Answer E)
    pub engine : E
    pub answers : r.answers ≡ before ++ last ∷ later
    pub failing : AllFailing E none before
    pub has_engine : engine_after E (engines_after E none before) last ≡ some engine
    pub accepts : last.initialize engine ≡ ok tt

  -- What the service has done by the end of its last round.
  pub record IsRunning (p : Process E) (waits : ℕ) (es : List BlockEntry) : Type 0 where
    pub service : Service
    pub runs : p.service ≡ some service
    pub waited : sleeps E p.start.events ≡ waits
    pub entries : List BlockEntry
    pub same_hash : hash (sorted entries) ≡ hash (sorted es)
    pub written : IsWritten entries service.files

  -- Where the wait for the database ends, every write of a map succeeds, and the last round fetches
  -- some entries, the service sleeps once for each failing pass, comes to its loop, and its four files
  -- then hold exactly the lines of entries with the same hash as those: whatever the files held at
  -- first, and whether or not the PID file could be written, the signal be handled, or Postfix be
  -- asked for PCRE.
  pub run_forever-IsRunning :
      (r : Run E) (q : IsStarting r) (old : Option Text) (files : MapFiles) (ss : List Seen)
      (seen : Seen) (es : List BlockEntry)
      → r.seen ≡ ss ++ seen ∷ []
      → All (IsGood hash run attribute env) ss
      → IsGood hash run attribute env seen
      → fetch_entries seen.fetched ≡ ok es
      → IsRunning (run_forever E hash run attribute env r old files) (length q.before) es
  unfolding run_forever
  run_forever-IsRunning r q old files ss seen es all goods good e =
      let s = begun E hash run attribute env files (has_postfix_pcre run []).1 in
      let ready =
        init_engine_and_db-IsReady E q.before q.last q.later q.engine q.failing q.has_engine
          q.accepts in
      let came =
        ap (λ a. init_engine_and_db E a (record { engine = none; events = [] })) q.answers
        ∙ ready.returns in
      let (entries, same, written) =
        rounds-IsWritten_from hash run attribute env s ss seen es refl goods good e in
      record {
        service = rounds hash run attribute env r.seen s;
        runs = ap (λ x. loop E hash run attribute env x.0 r.seen s) came;
        waited = ap (λ x. sleeps E x.1.events) came ∙ ready.sleeps_lem;
        entries = entries;
        same_hash = same;
        written = λ n.
            ap (λ v. content_of v.files n)
              (ap (λ l. rounds hash run attribute env l s) all ∙ rounds-append ss seen s)
            ∙ written n;
      }
