-- ===== src/Remote/Server/Rounds.antt =====
-- `SilogRemoteBroadcast` of silog_comm/src/silog_remote.c, the rounds of its loop.
use si_log.Base.{
  ℕ, zero, suc, ◌+◌, ◌-◌, ◌≤◌, ◌≡◌, ◌∙◌, refl, ap, sym, true, none, some, List, [], ◌∷◌, ◌++◌, map,
  length, length-append, Bool-cases, ltb, ◌&&◌, if◌then◌else◌, inl, inr, get_or, arith,
}
use mathlib.Core.List.{append_assoc, append-nil}
use si_log.Errors.{ok, net_timeout, net_file_error}
use si_log.Remote.Server.{
  Client, Manager, Sent, vacant, closed_by, close_client, send_full, broadcast_loop,
}
use si_log.Remote.Server.Table.{count_active, get_or-middle, close_client-middle}
use si_log.Remote.Server.Fate.{
  target, absent, served, skipped, dropped, fate, after, served_in, dropped_in, slot-cases,
  count_active-append,
}
use si_log.Remote.Server.Send.{IsBounded}

module _ (answers : ℕ → ℕ → ℕ → Sent) (len : ℕ) (bounded : (fd : ℕ) → IsBounded (answers fd)) where
  abbrev one_if_served : Client → ℕ
  one_if_served c = elim (fate answers len c) [ served ↦ 1 | other ↦ 0 ]

  abbrev closed_if_dropped : Client → List ℕ
  closed_if_dropped c = elim (fate answers len c) [ dropped ↦ closed_by c | other ↦ [] ]

  -- What the rest of the loop does to the slots behind a prefix.
  pub record Done (r : Manager × ℕ × List ℕ) (m : Manager) (pre cs : List Client) (sent : ℕ)
      (closed : List ℕ) : Type 0 where
    pub shape : r.0.clients ≡ pre ++ map (after answers len) cs
    pub counted : r.0.client_count ≡ count_active (pre ++ map (after answers len) cs)
    pub same_init : r.0.is_init ≡ m.is_init
    pub same_listen : r.0.listen_fd ≡ m.listen_fd
    pub same_max : r.0.max_clients ≡ m.max_clients
    pub all_served : r.1 ≡ sent + served_in answers len cs
    pub all_closed : r.2 ≡ closed ++ dropped_in answers len cs

  -- What a slot's fate does to the three results.
  record Effect (c d : Client) (n : ℕ) (gone : List ℕ) : Type 0 where
    left : after answers len c ≡ d
    one : one_if_served c ≡ n
    closed_here : closed_if_dropped c ≡ gone

  Effect-absent : {c : Client} → fate answers len c ≡ absent → Effect c c 0 []
  Effect-absent f = record {
    left = ground (arith, f);
    one = ground (arith, f);
    closed_here = ground (arith, f);
  }

  Effect-served : {c : Client} → fate answers len c ≡ served → Effect c c 1 []
  Effect-served f = record {
    left = ground (arith, f);
    one = ground (arith, f);
    closed_here = ground (arith, f);
  }

  Effect-skipped : {c : Client} → fate answers len c ≡ skipped → Effect c c 0 []
  Effect-skipped f = record {
    left = ground (arith, f);
    one = ground (arith, f);
    closed_here = ground (arith, f);
  }

  Effect-dropped : {c : Client} → fate answers len c ≡ dropped → Effect c vacant 0 (closed_by c)
  Effect-dropped f = record {
    left = ground (arith, f);
    one = ground (arith, f);
    closed_here = ground (arith, f);
  }

  Done-step :
      {r : Manager × ℕ × List ℕ} {d : Client} {n : ℕ} {gone : List ℕ} (m m' : Manager)
      (pre : List Client) (c : Client) (cs : List Client) (sent : ℕ) (closed : List ℕ)
      → (m'.is_init ≡ m.is_init) × (m'.listen_fd ≡ m.listen_fd) × (m'.max_clients ≡ m.max_clients)
      → Effect c d n gone
      → Done r m' (pre ++ d ∷ []) cs (sent + n) (closed ++ gone)
      → Done r m pre (c ∷ cs) sent closed
  Done-step {d} {n} {gone} m m' pre c cs sent closed (a, b, k) f h =
      let rest = map (after answers len) cs in
      let assoc = append_assoc pre (d ∷ []) rest ∙ ap (λ e. pre ++ e ∷ rest) (sym f.left) in
      record {
        shape = h.shape ∙ assoc;
        counted = h.counted ∙ ap count_active assoc;
        same_init = h.same_init ∙ a;
        same_listen = h.same_listen ∙ b;
        same_max = h.same_max ∙ k;
        all_served = omega (arith, h.all_served, f.one);
        all_closed =
            h.all_closed
            ∙ (append_assoc closed gone (dropped_in answers len cs)
                ∙ ap (λ g. closed ++ (g ++ dropped_in answers len cs)) (sym f.closed_here));
      }

  -- One round of the loop, by what the slot holds and what `SilogRemoteSendFull` answers.
  module _ (k i : ℕ) (m : Manager) (sent : ℕ) (closed : List ℕ) {c : Client}
      (here : get_or m.clients i vacant ≡ c) where
    round-absent :
        target c ≡ none
        → broadcast_loop answers len (suc k) i m sent closed
          ≡ broadcast_loop answers len k (i + 1) m sent closed
    unfolding broadcast_loop
    round-absent t = rw (broadcast_loop, here, t) refl

    round-served :
        {fd : ℕ}
        → target c ≡ some fd
        → (send_full (answers fd) len).0 ≡ ok
        → broadcast_loop answers len (suc k) i m sent closed
          ≡ broadcast_loop answers len k (i + 1) m (sent + 1) closed
    unfolding broadcast_loop
    round-served t code = rw (broadcast_loop, here, t, code) refl

    round-skipped :
        {fd : ℕ}
        → target c ≡ some fd
        → (send_full (answers fd) len).0 ≡ net_timeout
        → broadcast_loop answers len (suc k) i m sent closed
          ≡ broadcast_loop answers len k (i + 1) m sent closed
    unfolding broadcast_loop
    round-skipped t code = rw (broadcast_loop, here, t, code) refl

    round-dropped :
        {fd : ℕ}
        → target c ≡ some fd
        → (send_full (answers fd) len).0 ≡ net_file_error
        → broadcast_loop answers len (suc k) i m sent closed
          ≡ broadcast_loop answers len k
              (i + 1)
              (close_client m i).0
              sent
              (closed ++ (close_client m i).1)
    unfolding broadcast_loop
    round-dropped t code = rw (broadcast_loop, here, t, code) refl

  -- The table after the closing of the slot behind a prefix.
  abbrev without : Manager → List Client → Client → List Client → Manager
  without m pre c cs = record m {
    clients = pre ++ vacant ∷ cs;
    client_count = if c.active && ltb 0 m.client_count then m.client_count - 1 else m.client_count;
  }

  target-active : (c : Client) {fd : ℕ} → target c ≡ some fd → c.active ≡ true
  target-active c t = elim (Bool-cases c.active) [ inl on ↦ on | inr off ↦ cc ]

  without-counted :
      (m : Manager) (pre : List Client) (c : Client) (cs : List Client) {fd : ℕ}
      → m.client_count ≡ count_active (pre ++ c ∷ cs)
      → target c ≡ some fd
      → (without m pre c cs).client_count ≡ count_active (pre ++ vacant ∷ cs)
  without-counted m pre c cs n t =
      let on = target-active c t in
      ground (arith, on, count_active-append pre (c ∷ cs), count_active-append pre (vacant ∷ cs))

  pub broadcast_loop-Done :
      (k i : ℕ) (m : Manager) (pre cs : List Client) (sent : ℕ) (closed : List ℕ)
      → m.clients ≡ pre ++ cs
      → i ≡ length pre
      → length cs ≡ k
      → i + k ≤ m.max_clients
      → m.client_count ≡ count_active (pre ++ cs)
      → Done (broadcast_loop answers len k i m sent closed) m pre cs sent closed
  unfolding broadcast_loop
  broadcast_loop-Done zero i m pre [] sent closed e at l b n = record {
    shape = e;
    counted = n;
    same_init = refl;
    same_listen = refl;
    same_max = refl;
    all_served = omega arith;
    all_closed = sym (append-nil closed);
  }
  broadcast_loop-Done zero i m pre (c ∷ cs) sent closed e at l b n' = absurd (omega arith)
  broadcast_loop-Done (suc k) i m pre [] sent closed e at l b n = absurd (omega arith)
  broadcast_loop-Done (suc k) i m pre (c ∷ cs) sent closed e at l b n' =
      let here : get_or m.clients i vacant ≡ c =
        ap (λ l. get_or l i vacant) e
        ∙ (ap (λ j. get_or (pre ++ c ∷ cs) j vacant) at ∙ get_or-middle pre c cs) in
      let behind : (d : Client) → i + 1 ≡ length (pre ++ d ∷ []) =
        λ d. omega (arith, at, length-append pre (d ∷ [])) in
      let zero_more : sent + 0 ≡ sent = omega arith in
      let same : (pre ++ c ∷ []) ++ cs ≡ pre ++ c ∷ cs = append_assoc pre (c ∷ []) cs in
      let keep : (n : ℕ)
          → Done (broadcast_loop answers len k (i + 1) m n closed) m (pre ++ c ∷ []) cs n
              (closed ++ []) =
        λ n. rw (append-nil closed) (
          broadcast_loop-Done k (i + 1) m (pre ++ c ∷ []) cs n closed (e ∙ sym same) (behind c)
            (omega arith) (omega arith) (n' ∙ ap count_active (sym same))) in
      elim (slot-cases answers len c bounded) [
        | inl (t, f) ↦ rw (round-absent k i m sent closed here t) (
            Done-step m m pre c cs sent closed (refl, refl, refl) (Effect-absent f)
              (rw zero_more (keep sent)))
        | inr (fd, t, inl (code, f)) ↦ rw (round-served k i m sent closed here t code) (
            Done-step m m pre c cs sent closed (refl, refl, refl) (Effect-served f)
              (keep (sent + 1)))
        | inr (fd, t, inr (inl (code, f))) ↦ rw (round-skipped k i m sent closed here t code) (
            Done-step m m pre c cs sent closed (refl, refl, refl) (Effect-skipped f)
              (rw zero_more (keep sent)))
        | inr (fd, t, inr (inr (code, f))) ↦ rw (round-dropped k i m sent closed here t code) (
            rw (ap (close_client m) at ∙ close_client-middle m pre c cs e (omega (arith, at))) (
              Done-step m (without m pre c cs) pre c cs sent closed (refl, refl, refl)
                (Effect-dropped f)
                (rw zero_more (
                  broadcast_loop-Done k (i + 1) (without m pre c cs) (pre ++ vacant ∷ []) cs sent
                    (closed ++ closed_by c) (sym (append_assoc pre (vacant ∷ []) cs))
                    (behind vacant) (omega arith) (omega arith)
                    (without-counted m pre c cs n' t
                      ∙ ap count_active (sym (append_assoc pre (vacant ∷ []) cs)))))))
      ]
