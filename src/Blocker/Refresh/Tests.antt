-- ===== src/Blocker/Refresh/Tests.antt =====
-- A signal in the middle of a round.
use postfixblocker.Prelude.{◌≡◌, refl, true, false}
use postfixblocker.Blocker.Refresh.{
  Loop, on_signal, IsReached, first, next, signalled, start_cleared, round_begun, round_ended,
  in_round, waiting, waiting-is_set,
}

abbrev in_first_round : Loop
in_first_round = record { phase = in_round; is_set = false; is_unseen = false }

abbrev after_signal : Loop
after_signal = record { phase = waiting; is_set = true; is_unseen = true }

run_to_wait : IsReached after_signal
unfolding on_signal
run_to_wait =
    next
      (next (next (next first (start_cleared false false)) (round_begun false false))
        (signalled in_first_round))
      (round_ended true true)

waiting-is_set_example : after_signal.is_set ≡ true
waiting-is_set_example = waiting-is_set run_to_wait refl refl
