-- ===== src/Server.antt =====
-- src/server.js: the process from its start to its exit, with `closePool` of src/db/pool.js.
--
-- Node.js calls what was passed to `server.close` once the server no longer listens and its last
-- connection has ended, and runs a timer at the time it is due or at any time later; the pool of the driver
-- ends once, and `end` rejects from the second call on. That is their documented behaviour and stands in
-- the steps. The process may be asked to stop more than once.
pub mod Calls
pub mod Laws
pub mod Stops
use chargeback_iq.Prelude.{
  ℕ, zero, suc, ◌+◌, ◌≤◌, ◌<◌, Option, none, some, Bool, true, false, List, [], ◌∷◌, ◌≡◌, In, All,
}

pub data Pool : Type 0 where
  serving ending over : Pool

-- `pending` counts the functions passed to `server.close` that were not called yet; `is_rejected` says
-- that a promise was rejected which nothing handles.
pub record Process : Type 0 where
  pub now : ℕ
  pub is_listening : Bool
  pub connections : ℕ
  pub pending : ℕ
  pub pool : Pool
  pub timers : List ℕ
  pub is_rejected : Bool
  pub exit_code : Option ℕ

-- After `app.listen`.
abbrev pub launch : (now : ℕ) → Process
launch now = record {
  now = now;
  is_listening = true;
  connections = 0;
  pending = 0;
  pool = serving;
  timers = [];
  is_rejected = false;
  exit_code = none;
}

unfoldable pub shutdown : Process → Process
shutdown p = record p {
  is_listening = false;
  pending = suc p.pending;
  timers = (p.now + 10_000) ∷ p.timers;
}

-- `closePool`: `await pool.end()`
abbrev pub close_pool : Pool → Process → Process
close_pool serving p = record p { pool = ending }
close_pool ending p = record p { is_rejected = true }
close_pool over p = record p { is_rejected = true }

-- The functions passed to `server.close`, up to their `await`.
unfoldable pub call_back : (pending : ℕ) → Process → Process
call_back zero p = p
call_back (suc n) p = call_back n (close_pool p.pool p)

abbrev pub exit : (code : ℕ) → Process → Process
exit code p = record p { exit_code = some code }

-- One step of a process that has not exited.
pub data Step (p : Process) : Process → Type 0 where
  connect : p.is_listening ≡ true → Step p (record p { connections = suc p.connections })
  disconnect : (n : ℕ) → p.connections ≡ suc n → Step p (record p { connections = n })
  -- SIGTERM or SIGINT
  signal : Step p (shutdown p)
  close :
      p.is_listening ≡ false
      → p.connections ≡ 0
      → Step p (call_back p.pending (record p { pending = 0 }))
  -- after the `await`: `process.exit(0)`
  pool_ended : p.pool ≡ ending → Step p (exit 0 (record p { pool = over }))
  -- Node.js ends a process with an unhandled rejection.
  unhandled : p.is_rejected ≡ true → Step p (exit 1 p)
  tick : Step p (record p { now = suc p.now })
  -- the timer: `process.exit(1)`
  timeout : (t : ℕ) → In t p.timers → t ≤ p.now → Step p (exit 1 p)

pub data Reach (now : ℕ) : Process → Type 0 where
  start : Reach now (launch now)
  later : {p q : Process} → Reach now p → p.exit_code ≡ none → Step p q → Reach now q

-- The times of the signals of a run, the last one first.
abbrev pub heard : {p q : Process} → Step p q → List ℕ → List ℕ
heard (connect l) asked = asked
heard (disconnect n c) asked = asked
heard {p} signal asked = p.now ∷ asked
heard (close l c) asked = asked
heard (pool_ended o) asked = asked
heard (unhandled j) asked = asked
heard tick asked = asked
heard (timeout t i d) asked = asked

abbrev pub signals : {now : ℕ} {p : Process} → Reach now p → List ℕ
signals start = []
signals (later r e s) = heard s (signals r)
