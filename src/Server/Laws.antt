-- ===== src/Server/Laws.antt =====
-- How the process ends.
use chargeback_iq.Prelude.{
  ℕ, suc, ◌+◌, ◌≤◌, none, some, true, false, List, [], ◌∷◌, ◌≡◌, ◌≢◌, ◌⊎◌, inl, inr, refl, sym, ap,
  subst, ◌∙◌, arith, In, length, map, of_In-map,
}
use chargeback_iq.Server.{
  Pool, serving, ending, over, Process, shutdown, call_back, Step, connect, disconnect, signal,
  close, pool_ended, unhandled, tick, timeout, Reach, start, later, heard, signals,
}
use chargeback_iq.Server.Calls.{
  calls, call_back-Same, call_back-calls, call_back-serving, call_back-over,
}

-- A process after signals at the times `asked`. It listens until the first signal. Every signal has set a
-- timer, ten seconds later. The pool is closed only once the process no longer listens and its last
-- connection has ended. An exit with 0 comes after the end of the pool, and after a signal; an exit with 1
-- comes ten seconds after a signal or later, or after two signals at least.
pub record IsGraceful (asked : List ℕ) (p : Process) : Type 0 where
  pub unasked : asked ≡ [] → p.is_listening ≡ true
  pub stopped : asked ≢ [] → p.is_listening ≡ false
  pub timed : p.timers ≡ map (λ t. t + 10_000) asked
  pub quiet : p.pool ≢ serving → (p.is_listening ≡ false) × (p.connections ≡ 0)
  pub waiting : p.pool ≡ serving → p.pending ≡ length asked
  pub called : calls p.pool p.is_rejected + p.pending ≤ length asked
  pub unfinished : p.exit_code ≡ none → p.pool ≢ over
  pub finished : p.exit_code ≡ some 0 → (p.pool ≡ over) × (asked ≢ [])
  pub forced :
      p.exit_code ≡ some 1 → ((t : ℕ) × In t asked × (t + 10_000 ≤ p.now)) ⊎ (2 ≤ length asked)

-- The process listens exactly where it heard no signal.
unasked_if_listening :
    (asked : List ℕ) (p : Process) → IsGraceful asked p → p.is_listening ≡ true → asked ≡ []
unasked_if_listening [] p g l = refl
unasked_if_listening (t ∷ ts) p g l = absurd (cc (l, g.stopped (λ e. cc e)))

asked_if_stopped :
    (asked : List ℕ) (p : Process) → IsGraceful asked p → p.is_listening ≡ false → asked ≢ []
asked_if_stopped asked p g l e = cc (l, g.unasked e)

twice : (s : Pool) (n k : ℕ) → calls s true + n ≤ k → 2 ≤ k
twice serving n k h = omega arith
twice ending n k h = omega arith
twice over n k h = omega arith

-- The functions passed to `server.close` are called.
closed-IsGraceful :
    (asked : List ℕ) (p q : Process)
    → p.exit_code ≡ none
    → p.is_listening ≡ false
    → p.connections ≡ 0
    → q ≡ call_back p.pending (record p { pending = 0 })
    → IsGraceful asked p
    → IsGraceful asked q
closed-IsGraceful asked p q e l c same g =
    let before : Process = record p { pending = 0 } in
    let s = call_back-Same p.pending before in
    subst (IsGraceful asked) (sym same) (record {
      unasked = λ h. absurd (asked_if_stopped asked p g l h);
      stopped = λ h. s.is_listening ∙ l;
      timed = s.timers ∙ g.timed;
      quiet = λ h. (s.is_listening ∙ l, s.connections ∙ c);
      waiting = λ h.
          let (none_left, idle) = call_back-serving p.pending before h in
          s.pending ∙ sym none_left ∙ g.waiting idle;
      called = omega (arith, s.pending, call_back-calls p.pending before, g.called);
      unfinished = λ h. call_back-over p.pending before (g.unfinished e);
      finished = λ h. absurd (cc (h, s.exit_code, e));
      forced = λ h. absurd (cc (h, s.exit_code, e));
    })

Step-IsGraceful :
    (asked : List ℕ) {p q : Process}
    → p.exit_code ≡ none
    → (s : Step p q) → IsGraceful asked p
    → IsGraceful (heard s asked) q
unfolding shutdown
Step-IsGraceful asked {p} e (connect l) g = record {
  unasked = g.unasked;
  stopped = g.stopped;
  timed = g.timed;
  quiet = λ h. absurd (cc (l, (g.quiet h).0));
  waiting = g.waiting;
  called = g.called;
  unfinished = g.unfinished;
  finished = λ h. absurd (cc (e, h));
  forced = λ h. absurd (cc (e, h));
}
Step-IsGraceful asked {p} e (disconnect n c) g = record {
  unasked = g.unasked;
  stopped = g.stopped;
  timed = g.timed;
  quiet = λ h. absurd (cc (c, (g.quiet h).1));
  waiting = g.waiting;
  called = g.called;
  unfinished = g.unfinished;
  finished = λ h. absurd (cc (e, h));
  forced = λ h. absurd (cc (e, h));
}
Step-IsGraceful asked {p} e signal g = record {
  unasked = λ h. absurd cc;
  stopped = λ h. refl;
  timed = ap (λ ts. (p.now + 10_000) ∷ ts) g.timed;
  quiet = λ h. (refl, (g.quiet h).1);
  waiting = λ h. ap suc (g.waiting h);
  called = omega (arith, g.called);
  unfinished = g.unfinished;
  finished = λ h. absurd (cc (e, h));
  forced = λ h. absurd (cc (e, h));
}
Step-IsGraceful asked {p} e (close l c) g = closed-IsGraceful asked p _ e l c refl g
Step-IsGraceful asked {p} e (pool_ended o) g = record {
  unasked = g.unasked;
  stopped = g.stopped;
  timed = g.timed;
  quiet = λ h. g.quiet (λ x. cc (o, x));
  waiting = λ h. absurd cc;
  called = subst (λ x. calls x p.is_rejected + p.pending ≤ length asked) o g.called;
  unfinished = λ h. absurd cc;
  finished = λ h. (refl, asked_if_stopped asked p g (g.quiet (λ x. cc (o, x))).0);
  forced = λ h. absurd (ground arith);
}
Step-IsGraceful asked {p} e (unhandled j) g = record {
  unasked = g.unasked;
  stopped = g.stopped;
  timed = g.timed;
  quiet = g.quiet;
  waiting = g.waiting;
  called = g.called;
  unfinished = λ h. absurd cc;
  finished = λ h. absurd (ground arith);
  forced = λ h. inr (
      twice p.pool p.pending (length asked)
        (subst (λ x. calls p.pool x + p.pending ≤ length asked) j g.called));
}
Step-IsGraceful asked {p} e tick g = record {
  unasked = g.unasked;
  stopped = g.stopped;
  timed = g.timed;
  quiet = g.quiet;
  waiting = g.waiting;
  called = g.called;
  unfinished = g.unfinished;
  finished = λ h. absurd (cc (e, h));
  forced = λ h. absurd (cc (e, h));
}
Step-IsGraceful asked {p} e (timeout t i d) g = record {
  unasked = g.unasked;
  stopped = g.stopped;
  timed = g.timed;
  quiet = g.quiet;
  waiting = g.waiting;
  called = g.called;
  unfinished = λ h. absurd cc;
  finished = λ h. absurd (ground arith);
  forced = λ h.
      let (asked_at, j, same) = of_In-map (λ x. x + 10_000) asked t (subst (In t) g.timed i) in
      inl (asked_at, j, omega (arith, same, d));
}

-- Whatever the process meets, signals that come twice included: it listens exactly until the first signal,
-- and every signal sets one timer, ten seconds later; it closes the pool only when it no longer listens and
-- its last connection has ended; it exits with 0 only after a signal and after the end of the pool; and it
-- exits with 1 only ten seconds or more after a signal, or after two signals at least.
pub Reach-IsGraceful : {now : ℕ} {p : Process} (r : Reach now p) → IsGraceful (signals r) p
Reach-IsGraceful start = record {
  unasked = λ h. refl;
  stopped = λ h. absurd (h refl);
  timed = refl;
  quiet = λ h. absurd (h refl);
  waiting = λ h. refl;
  called = omega arith;
  unfinished = λ h e. cc e;
  finished = λ h. absurd cc;
  forced = λ h. absurd cc;
}
Reach-IsGraceful (later r e s) = Step-IsGraceful (signals r) e s (Reach-IsGraceful r)
