-- ===== src/Tests/Server.antt =====
-- A process that is asked to stop twice while a connection is open.
use chargeback_iq.Prelude.{[], ◌∷◌, refl}
use chargeback_iq.Server.{
  Process, launch, shutdown, call_back, exit, connect, disconnect, signal, close, unhandled, Reach,
  start, later,
}
use chargeback_iq.Server.Laws.{IsGraceful, Reach-IsGraceful}
use chargeback_iq.Server.Stops.{CanStop, Reach-CanStop}

abbrev busy : Process
busy = record (launch 0) { connections = 1 }

abbrev asked_twice : Process
asked_twice = shutdown (shutdown busy)

-- The last connection has ended, and both functions were called.
abbrev rejected : Process
rejected = call_back 2 (record asked_twice { connections = 0; pending = 0 })

-- With the pool still ending and the timers ahead, the process exits with 1.
run_of_two_signals : Reach 0 (exit 1 rejected)
unfolding shutdown call_back
run_of_two_signals =
    later
      (later
        (later (later (later (later start refl (connect refl)) refl signal) refl signal) refl
          (disconnect 0 refl))
        refl (close refl refl))
      refl (unhandled refl)

Reach-IsGraceful_example : IsGraceful (0 ∷ 0 ∷ []) (exit 1 rejected)
unfolding run_of_two_signals
Reach-IsGraceful_example = Reach-IsGraceful run_of_two_signals

-- After one signal, with the connection still open.
run_until_asked : Reach 0 (shutdown busy)
unfolding shutdown
run_until_asked = later (later start refl (connect refl)) refl signal

Reach-CanStop_example : CanStop (shutdown busy)
unfolding shutdown run_until_asked
Reach-CanStop_example = Reach-CanStop run_until_asked 0 refl refl
