-- ===== src/Blocker/Refresh.antt =====
-- The refresh event of postfix_blocker/services/blocker_service.py: the handler of SIGUSR1, which may
-- run between any two actions of the loop, and the places where the loop waits for the event and
-- clears it.
mod Tests
use postfixblocker.Prelude.{◌≡◌, refl, subst, Bool, true, false, arith}

-- Where `run_forever` is: before it clears the event, before a round, in a round, in
-- `_refresh_event.wait`, and behind it.
pub data Phase : Type 0 where
  starting top in_round waiting woken : Phase

-- The event, and whether a signal came since the last round began.
pub record Loop : Type 0 where
  pub phase : Phase
  pub is_set : Bool
  pub is_unseen : Bool

-- `_refresh_event.set()`.
unfoldable pub on_signal : Loop → Loop
on_signal s = record s { is_set = true; is_unseen = true }

-- The actions of the loop, and the signal. The wait ends where the event is set, or by its timeout.
pub data Step : Loop → Loop → Type 0 where
  signalled : (s : Loop) → Step s (on_signal s)
  start_cleared :
      (b u : Bool)
      → Step
          (record { phase = starting; is_set = b; is_unseen = u })
          (record { phase = top; is_set = false; is_unseen = u })
  round_begun :
      (b u : Bool)
      → Step
          (record { phase = top; is_set = b; is_unseen = u })
          (record { phase = in_round; is_set = b; is_unseen = false })
  round_ended :
      (b u : Bool)
      → Step
          (record { phase = in_round; is_set = b; is_unseen = u })
          (record { phase = waiting; is_set = b; is_unseen = u })
  event_seen :
      (u : Bool)
      → Step
          (record { phase = waiting; is_set = true; is_unseen = u })
          (record { phase = woken; is_set = true; is_unseen = u })
  timed_out :
      (b u : Bool)
      → Step
          (record { phase = waiting; is_set = b; is_unseen = u })
          (record { phase = woken; is_set = b; is_unseen = u })
  event_cleared :
      (u : Bool)
      → Step
          (record { phase = woken; is_set = true; is_unseen = u })
          (record { phase = top; is_set = false; is_unseen = u })
  event_unset :
      (u : Bool)
      → Step
          (record { phase = woken; is_set = false; is_unseen = u })
          (record { phase = top; is_set = false; is_unseen = u })

abbrev pub launched : Loop
launched = record { phase = starting; is_set = false; is_unseen = false }

-- The states that the loop may come to.
pub data IsReached : Loop → Type 0 where
  first : IsReached launched
  next : {s t : Loop} → IsReached s → Step s t → IsReached t

-- In a round and in the wait, a signal that no round has seen has left the event set.
abbrev IsKept : Phase → Bool → Bool → Type 0
IsKept in_round b u = u ≡ true → b ≡ true
IsKept waiting b u = u ≡ true → b ≡ true
IsKept _ b u = Unit

on_signal-IsKept : (p : Phase) (b u : Bool) → IsKept p true true
on_signal-IsKept starting b u = tt
on_signal-IsKept top b u = tt
on_signal-IsKept in_round b u = λ e. refl
on_signal-IsKept waiting b u = λ e. refl
on_signal-IsKept woken b u = tt

abbrev Kept : Loop → Type 0
Kept s = IsKept s.phase s.is_set s.is_unseen

Step-Kept : {s t : Loop} → Step s t → Kept s → Kept t
unfolding on_signal
Step-Kept (signalled s) h = on_signal-IsKept s.phase s.is_set s.is_unseen
Step-Kept (start_cleared b u) h = tt
Step-Kept (round_begun b u) h = λ e. ground arith
Step-Kept (round_ended b u) h = h
Step-Kept (event_seen u) h = tt
Step-Kept (timed_out b u) h = tt
Step-Kept (event_cleared u) h = tt
Step-Kept (event_unset u) h = tt

IsReached-Kept : {s : Loop} → IsReached s → Kept s
IsReached-Kept first = tt
IsReached-Kept (next r step) = Step-Kept step (IsReached-Kept r)

-- A signal is never lost: whenever the loop is at its wait and a signal came since the last round
-- began, the event is set, so that the wait ends at once and another round begins.
pub waiting-is_set :
    {s : Loop} → IsReached s → s.phase ≡ waiting → s.is_unseen ≡ true → s.is_set ≡ true
waiting-is_set {s = s} r w u = subst (λ p. IsKept p s.is_set s.is_unseen) w (IsReached-Kept r) u
