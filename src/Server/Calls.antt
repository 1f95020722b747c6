-- ===== src/Server/Calls.antt =====
-- What the calls of `closePool` come to.
use chargeback_iq.Prelude.{ℕ, zero, suc, ◌+◌, ◌≤◌, Bool, true, false, ◌≡◌, ◌≢◌, refl, ◌∙◌, arith}
use chargeback_iq.Server.{Pool, serving, ending, over, Process, close_pool, call_back}

-- How many calls of `closePool` a pool and a rejection speak of, as far as two.
abbrev pub calls : Pool → (is_rejected : Bool) → ℕ
calls serving true = 2
calls serving false = 0
calls ending true = 2
calls ending false = 1
calls over true = 2
calls over false = 1

-- What the functions passed to `server.close` leave alone.
pub record Same (p q : Process) : Type 0 where
  pub now : q.now ≡ p.now
  pub is_listening : q.is_listening ≡ p.is_listening
  pub connections : q.connections ≡ p.connections
  pub timers : q.timers ≡ p.timers
  pub exit_code : q.exit_code ≡ p.exit_code
  pub pending : q.pending ≡ p.pending

pub close_pool-Same : (s : Pool) (p : Process) → Same p (close_pool s p)
close_pool-Same serving p = record {
  now = refl;
  is_listening = refl;
  connections = refl;
  timers = refl;
  exit_code = refl;
  pending = refl;
}
close_pool-Same ending p = record {
  now = refl;
  is_listening = refl;
  connections = refl;
  timers = refl;
  exit_code = refl;
  pending = refl;
}
close_pool-Same over p = record {
  now = refl;
  is_listening = refl;
  connections = refl;
  timers = refl;
  exit_code = refl;
  pending = refl;
}

pub call_back-Same : (n : ℕ) (p : Process) → Same p (call_back n p)
unfolding call_back
call_back-Same zero p = record {
  now = refl;
  is_listening = refl;
  connections = refl;
  timers = refl;
  exit_code = refl;
  pending = refl;
}
call_back-Same (suc n) p =
    let a = close_pool-Same p.pool p in
    let b = call_back-Same n (close_pool p.pool p) in
    record {
      now = b.now ∙ a.now;
      is_listening = b.is_listening ∙ a.is_listening;
      connections = b.connections ∙ a.connections;
      timers = b.timers ∙ a.timers;
      exit_code = b.exit_code ∙ a.exit_code;
      pending = b.pending ∙ a.pending;
    }

-- One call of `closePool` counts once.
ending_calls : (b : Bool) → calls ending b ≤ suc (calls serving b)
ending_calls true = omega arith
ending_calls false = omega arith

rejected_calls : (s : Pool) (b : Bool) → s ≢ serving → calls s true ≤ suc (calls s b)
rejected_calls serving b h = absurd (h refl)
rejected_calls ending true h = omega arith
rejected_calls ending false h = omega arith
rejected_calls over true h = omega arith
rejected_calls over false h = omega arith

close_pool-calls :
    (s : Pool) (p : Process)
    → p.pool ≡ s
    → calls (close_pool s p).pool (close_pool s p).is_rejected ≤ suc (calls p.pool p.is_rejected)
close_pool-calls serving p h = rw h (ending_calls p.is_rejected)
close_pool-calls ending p h = rejected_calls p.pool p.is_rejected (λ e. cc (h, e))
close_pool-calls over p h = rejected_calls p.pool p.is_rejected (λ e. cc (h, e))

pub call_back-calls :
    (n : ℕ) (p : Process)
    → calls (call_back n p).pool (call_back n p).is_rejected ≤ n + calls p.pool p.is_rejected
unfolding call_back
call_back-calls zero p = omega arith
call_back-calls (suc n) p =
    omega (arith, call_back-calls n (close_pool p.pool p), close_pool-calls p.pool p refl)

-- A pool that a call was made for is no longer serving, and a call does not end it.
close_pool-ending : (s : Pool) (p : Process) → p.pool ≡ s → (close_pool s p).pool ≢ serving
close_pool-ending serving p h e = cc e
close_pool-ending ending p h e = cc (h, e)
close_pool-ending over p h e = cc (h, e)

pub call_back-serving :
    (n : ℕ) (p : Process) → (call_back n p).pool ≡ serving → (n ≡ 0) × (p.pool ≡ serving)
unfolding call_back
call_back-serving zero p h = (refl, h)
call_back-serving (suc n) p h =
    absurd (close_pool-ending p.pool p refl (call_back-serving n (close_pool p.pool p) h).1)

close_pool-over : (s : Pool) (p : Process) → p.pool ≡ s → s ≢ over → (close_pool s p).pool ≢ over
close_pool-over serving p h g e = cc e
close_pool-over ending p h g e = cc (h, e)
close_pool-over over p h g e = g refl

pub call_back-over : (n : ℕ) (p : Process) → p.pool ≢ over → (call_back n p).pool ≢ over
unfolding call_back
call_back-over zero p h = h
call_back-over (suc n) p h =
    call_back-over n (close_pool p.pool p) (close_pool-over p.pool p refl h)
