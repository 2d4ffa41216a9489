-- ===== src/Exe/Probe.antt =====
-- The probe of silog_exe/src/silog_exe.c: what `SilogExeDaemonIsRunning` answers and leaves.
use si_log.Base.{
  ℕ, zero, suc, ◌+◌, ◌≡◌, refl, sym, ap, subst, Bool, true, false, not, List, ◌++◌, if◌then◌else◌,
}
use si_log.Errors.{ErrorCode, is_ok}
use si_log.Ipc.{Agent, SocketCalls, Effect, client_init, client_close}
use si_log.Ipc.Balance.{Balanced, Balanced-trans}
use si_log.Ipc.Descriptors.{client_close-Balanced}
use si_log.Ipc.Idle.{
  idle, IsIdle, IsClosed, reaches, append-IsClosed, Balanced-IsClosed, client_init-Connects,
  client_close-idle, idle-IsIdle,
}
use si_log.Exe.{probe, is_running, wait_until}

-- What a probe is.
pub record Probed (s : SocketCalls) (r : Bool × Agent × List Effect) : Type 0 where
  pub answer : r.0 ≡ reaches s
  pub agent : r.1 ≡ idle
  pub all_closed : IsClosed r.2

-- The two ends of a probe, after the client's connection.
probe_result :
    (s : SocketCalls) (code : ErrorCode) (a b : Agent) (done ended : List Effect) (test : Bool)
    → test ≡ reaches s
    → b ≡ idle
    → Balanced idle b (done ++ ended)
    → (test ≡ false → a ≡ idle)
    → Balanced idle a done
    → Probed s (if test then (true, b, done ++ ended) else (false, a, done))
probe_result s code a b done ended true reached ended_idle p failed q = record {
  answer = reached;
  agent = ended_idle;
  all_closed = Balanced-IsClosed b (done ++ ended) ended_idle p;
}
probe_result s code a b done ended false reached ended_idle p failed q = record {
  answer = reached;
  agent = failed refl;
  all_closed = Balanced-IsClosed a done (failed refl) q;
}

probe-Probed : (s : SocketCalls) → Probed s (probe idle s)
unfolding probe
probe-Probed s =
    let r = client_init idle s in
    let t = client_close r.1 in
    let c = client_init-Connects s in
    probe_result s r.0 r.1 t.0 r.2 t.1 (is_ok r.0) c.answer (client_close-idle r.1 c.client)
      (Balanced-trans idle r.1 t.0 r.2 t.1 c.balanced (client_close-Balanced r.1)) c.failed_idle
      c.balanced

pub is_running-Probed : (a : Agent) (s : SocketCalls) → IsIdle a → Probed s (is_running a s)
unfolding is_running
is_running-Probed a s h = subst (λ b. Probed s (probe b s)) (sym h) (probe-Probed s)

-- Whether a loop of at most `n` probes, the first with number `i`, finds the daemon as wanted.
abbrev pub finds : Bool → ℕ → ℕ → (ℕ → SocketCalls) → Bool
finds wanted zero i probes = false
finds wanted (suc n) i probes =
    let later = finds wanted n (i + 1) probes in
    if (if wanted then reaches (probes i) else not (reaches (probes i))) then true else later

-- What a loop of probes is.
pub record Waited (found : Bool) (r : Bool × Agent × List Effect) : Type 0 where
  pub answer : r.0 ≡ found
  pub agent : r.1 ≡ idle
  pub all_closed : IsClosed r.2

wait_step :
    (test test' found : Bool) (u v : Bool × Agent × List Effect)
    → test ≡ test'
    → u.1 ≡ idle
    → IsClosed u.2
    → Waited found v
    → Waited
        (if test' then true else found)
        (if test then (true, u.1, u.2) else (v.0, v.1, u.2 ++ v.2))
wait_step true test' found u v e i c w =
    subst (λ b. Waited (if b then true else found) (true, u.1, u.2)) e
      (record { answer = refl; agent = i; all_closed = c })
wait_step false test' found u v e i c w =
    subst (λ b. Waited (if b then true else found) (v.0, v.1, u.2 ++ v.2)) e
      (record {
        answer = w.answer;
        agent = w.agent;
        all_closed = append-IsClosed u.2 v.2 c w.all_closed;
      })

pub wait_until-Waited :
    (wanted : Bool) (n i : ℕ) (a : Agent) (probes : ℕ → SocketCalls)
    → a ≡ idle
    → Waited (finds wanted n i probes) (wait_until wanted n i a probes)
unfolding wait_until
wait_until-Waited wanted zero i a probes e = record {
  answer = refl;
  agent = e;
  all_closed = λ x. refl;
}
wait_until-Waited wanted (suc n) i a probes e =
    let u = is_running a (probes i) in
    let p = is_running-Probed a (probes i) (subst IsIdle (sym e) idle-IsIdle) in
    wait_step (if wanted then u.0 else not u.0)
      (if wanted then reaches (probes i) else not (reaches (probes i)))
      (finds wanted n (i + 1) probes) u (wait_until wanted n (i + 1) u.1 probes)
      (ap (λ b. if wanted then b else not b) p.answer) p.agent p.all_closed
      (wait_until-Waited wanted n (i + 1) u.1 probes p.agent)
