-- ===== src/Server/Stops.antt =====
-- A process that was asked to stop can do so.
use chargeback_iq.Prelude.{
  ℕ, zero, suc, none, some, false, [], ◌≡◌, ◌≢◌, refl, sym, ◌∙◌, length, List, ◌∷◌,
}
use chargeback_iq.Server.{
  Pool, serving, ending, over, Process, call_back, Step, disconnect, close, pool_ended, Reach,
  signals,
}
use chargeback_iq.Server.Calls.{call_back-Same, call_back-serving, call_back-over}
use chargeback_iq.Server.Laws.{Reach-IsGraceful}

-- The steps from a process on.
pub data Steps (p : Process) : Process → Type 0 where
  here : Steps p p
  next : {q r : Process} → Steps p q → q.exit_code ≡ none → Step q r → Steps p r

-- The process exits with 0, with no time passing.
abbrev pub CanStop : Process → Type 0
CanStop p = (q : Process) × Steps p q × (q.exit_code ≡ some 0) × (q.now ≡ p.now)

-- The steps that come first.
Steps-first : {p q r : Process} → p.exit_code ≡ none → Step p q → Steps q r → Steps p r
Steps-first e s here = next here e s
Steps-first e s (next ss e2 s2) = next (Steps-first e s ss) e2 s2

not_empty : (asked : List ℕ) → asked ≢ [] → length asked ≢ 0
not_empty [] h e = h refl
not_empty (t ∷ ts) h e = cc e

pool_cases :
    (s : Pool) (p : Process)
    → p.pool ≡ s
    → p.exit_code ≡ none
    → p.pool ≢ serving
    → p.pool ≢ over
    → CanStop p
pool_cases serving p h e a b = absurd (a h)
pool_cases ending p h e a b = (_, next here e (pool_ended h), refl, refl)
pool_cases over p h e a b = absurd (b h)

-- With the last connection gone, the functions are called and the pool ends.
closes :
    (p : Process)
    → p.exit_code ≡ none
    → p.is_listening ≡ false
    → p.connections ≡ 0
    → p.pool ≢ over
    → (p.pool ≡ serving → p.pending ≢ 0)
    → CanStop p
closes p e l c running waiting =
    let before : Process = record p { pending = 0 } in
    let s = call_back-Same p.pending before in
    let (q, steps, ended, now) =
      pool_cases (call_back p.pending before).pool (call_back p.pending before) refl
        (s.exit_code ∙ e)
        (λ h.
          let (none_left, idle) = call_back-serving p.pending before h in waiting idle none_left)
        (call_back-over p.pending before running) in
    (q, Steps-first e (close l c) steps, ended, now ∙ s.now)

drains :
    (n : ℕ) (p : Process)
    → p.connections ≡ n
    → p.exit_code ≡ none
    → p.is_listening ≡ false
    → p.pool ≢ over
    → (p.pool ≡ serving → p.pending ≢ 0)
    → CanStop p
drains zero p c e l running waiting = closes p e l c running waiting
drains (suc n) p c e l running waiting =
    let (q, steps, ended, now) = drains n (record p { connections = n }) refl e l running waiting in
    (q, Steps-first e (disconnect n c) steps, ended, now)

-- Whatever the process has met, once it was asked to stop by one signal and as long as it has not exited,
-- there are steps after which it exits with 0, with no time passing: no timer is needed for it.
pub Reach-CanStop :
    {now : ℕ} {p : Process} (r : Reach now p) (t : ℕ)
    → signals r ≡ t ∷ []
    → p.exit_code ≡ none
    → CanStop p
Reach-CanStop {now} {p} r t one e =
    let g = Reach-IsGraceful r in
    let asked : signals r ≢ [] = λ h. cc (one, h) in
    drains p.connections p refl e (g.stopped asked) (g.unfinished e)
      (λ h z. not_empty (signals r) asked (sym (g.waiting h) ∙ z))
