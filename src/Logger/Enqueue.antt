-- ===== src/Logger/Enqueue.antt =====
-- What a call of `silogLog` in silog_logger/src/silog_logger.c puts into the queue.
use si_log.Base.{
  ℕ, ◌≤◌, ◌<◌, ◌⊎◌, arith, ◌≡◌, ◌∙◌, refl, ap, sym, subst, [], Bool, true, false, not, Option, none,
  some, List, Bool-cases, inl, inr, if◌then◌else◌,
}
use si_log.Errors.{ErrorCode, is_ok}
use si_log.Entry.{LogEntry}
use si_log.Mpsc.{MpscQueue, push}
use si_log.Mpsc.Fifo.{offer}
use si_log.Mpsc.Inv.{Holds, items}
use si_log.Mpsc.Push.{push_refines}
use si_log.Ipc.{Effect}
use si_log.Logger.{
  LogManager, BuildCalls, MngCalls, check_level, build_entry, mng_init, init_once, after_push,
  push_built, after_once, silog_log,
}

-- What becomes of the queue's entries by a built entry, or by none.
abbrev pub offered : ℕ → List LogEntry → ErrorCode × Option LogEntry → List LogEntry
offered capacity held (code, none) = held
offered capacity held (code, some e) = if is_ok code then (offer capacity held e).1 else held

-- The manager's queue is `q'`, which is valid and holds `left`.
pub record IsQueued (m : LogManager) (left : List LogEntry) (after : Option LogManager)
    : Type 0 where
  pub queue : MpscQueue LogEntry
  pub count : ℕ
  pub same : after ≡ some (record m { log_queue = some queue })
  pub valid : Holds queue count
  pub entries : items queue count ≡ left

module _ (m : LogManager) (q : MpscQueue LogEntry) (n : ℕ) (here : m.log_queue ≡ some q)
    (h : Holds q n) where
  unchanged-IsQueued : IsQueued m (items q n) (some m)
  unchanged-IsQueued = record {
    queue = q;
    count = n;
    same = ap (λ l. some (record m { log_queue = l })) here;
    valid = h;
    entries = refl;
  }

  push-IsQueued :
      (e : LogEntry)
      → IsQueued m (offer q.capacity (items q n) e).1 (after_push m (push m.log_queue (some e)))
  unfolding after_push
  push-IsQueued e =
      let (q', n', pushed, holds, same, cap) = push_refines e h in
      record {
        queue = q';
        count = n';
        same = ap (λ l. after_push m (push l (some e))) here ∙ ap (after_push m) pushed;
        valid = holds;
        entries = same;
      }

  push_built-IsQueued :
      (built : ErrorCode × Option LogEntry)
      → IsQueued m (offered q.capacity (items q n) built) (push_built m built)
  unfolding push_built
  push_built-IsQueued (code, none) = unchanged-IsQueued
  push_built-IsQueued (code, some e) = elim (Bool-cases (is_ok code)) [
    | inl good ↦ rw good (push-IsQueued e)
    | inr bad ↦ rw bad unchanged-IsQueued
  ]

  filtered-IsQueued :
      (built : ErrorCode × Option LogEntry) (high : Bool)
      → IsQueued m
          (if high then offered q.capacity (items q n) built else items q n)
          (if not high then some m else push_built m built)
  filtered-IsQueued built true = push_built-IsQueued built
  filtered-IsQueued built false = unchanged-IsQueued

  level_cases :
      (level : ℕ)
      → ((m.min_level ≤ level) × (check_level m level ≡ true))
        ⊎ ((level < m.min_level) × (check_level m level ≡ false))
  unfolding check_level
  level_cases level = ground arith

  called-IsQueued :
      (size level line : ℕ) (tag file : List ℕ) (os : MngCalls) (build : BuildCalls)
      → m.once ≡ true
      → m.init_success ≡ true
      → IsQueued m
          (if check_level m level
            then offered q.capacity (items q n) (build_entry level tag file line build)
            else items q n)
          (silog_log size m level tag file line os build)
  unfolding silog_log after_once init_once
  called-IsQueued size level line tag file os build used good =
      let built = build_entry level tag file line build in
      let first : (init_once size m os).0 ≡ m =
        ap (λ (r : LogManager × List Effect). r.0)
          (ap
            (λ t.
              if t
              then (m, [])
              else (record (mng_init size m os).0 { once = true }, (mng_init size m os).1))
            used) in
      let started : after_once m level built
          ≡ (if not (check_level m level) then some m else push_built m built) =
        ap
          (λ t.
            if not t
            then some m
            else (if not (check_level m level) then some m else push_built m built))
          good in
      subst
        (IsQueued m
          (if check_level m level then offered q.capacity (items q n) built else items q n))
        (sym (ap (λ k. after_once k level built) first ∙ started))
        (filtered-IsQueued built (check_level m level))

  -- Once the manager is initialised, with a valid queue: a call below the minimal level leaves the queue's entries,
  -- and a call of at least that level returns with the entry that it could build offered to the bounded FIFO of the
  -- queue's entries, which drops it if it is full. The other fields of the manager stay.
  pub silog_log-IsQueued :
      (size level line : ℕ) (tag file : List ℕ) (os : MngCalls) (build : BuildCalls)
      → m.once ≡ true
      → m.init_success ≡ true
      → ((m.min_level ≤ level)
          × IsQueued m
              (offered q.capacity (items q n) (build_entry level tag file line build))
              (silog_log size m level tag file line os build))
        ⊎ ((level < m.min_level)
            × IsQueued m (items q n) (silog_log size m level tag file line os build))
  silog_log-IsQueued size level line tag file os build used good =
      let after = silog_log size m level tag file line os build in
      let built = build_entry level tag file line build in
      let left : Bool → List LogEntry =
        λ high. if high then offered q.capacity (items q n) built else items q n in
      let called = called-IsQueued size level line tag file os build used good in
      elim (level_cases level) [
        | inl (high, passes) ↦ inl (high, subst (λ b. IsQueued m (left b) after) passes called)
        | inr (low, stops) ↦ inr (low, subst (λ b. IsQueued m (left b) after) stops called)
      ]
