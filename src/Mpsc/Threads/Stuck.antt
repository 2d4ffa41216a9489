-- ===== src/Mpsc/Threads/Stuck.antt =====
-- The queue of silog_comm/src/silog_mpsc.c with a position that no producer will ever fill: what one
-- access of a producer keeps.
use Prim.Native.Nat.{bit_and}
use si_log.Base.{
  ℕ, ◌+◌, ◌%◌, ◌^◌, ◌≤◌, ◌<◌, ◌≡◌, ◌≢◌, ◌∙◌, refl, ap, ap₂, sym, List, [], ◌∷◌, leb, ◌==◌,
  if◌then◌else◌, update, update_ne, Bool-cases, inl, inr, arith,
}
use si_log.Base.Word.{add32, sub32}
use si_log.Mpsc.{MpscQueue}
use si_log.Mpsc.Threads.{Pc, idle, got, rolling, claiming, copying, publishing, producer_step}

module _ (r : ℕ) where
  -- The position lies behind the reader's, by less than `bound`.
  abbrev pub IsBehind : ℕ → ℕ → Type 0
  IsBehind bound write = (k : ℕ) × (write ≡ (r + k) % 2 ^ 32) × (0 < k) × (k < bound)

-- `r` is the reader's position, `c` the capacity, `n` a bound on the producers.
module _ {A : Type 0} (c mask r n : ℕ) where
  -- A producer that will find the queue full, as it holds a position too far from the reader's, or
  -- has found it so.
  abbrev pub doomed : Pc A → ℕ
  doomed (got write e) = if leb c (sub32 write r) then 1 else 0
  doomed rolling = 1
  doomed other = 0

  abbrev pub all_doomed : List (Pc A) → ℕ
  all_doomed [] = 0
  all_doomed (p ∷ ps) = doomed p + all_doomed ps

  abbrev pub IsFine : Pc A → Type 0
  IsFine (got write e) = IsBehind r (c + n + 1) write
  IsFine (claiming write e) = IsBehind r c write
  IsFine (copying write e) = IsBehind r c write
  IsFine (publishing write) = IsBehind r c write
  IsFine other = Unit

  abbrev pub AllFine : List (Pc A) → Type 0
  AllFine [] = Unit
  AllFine (p ∷ ps) = IsFine p × AllFine ps

  -- The writer's position: some positions from the reader's on are taken for good, at least one and at
  -- most all, and each doomed producer has taken one that it will give back.
  pub record IsCounted (q : MpscQueue A) (back : ℕ) : Type 0 where
    pub taken : ℕ
    pub some_taken : 0 < taken
    pub not_more : taken ≤ c
    pub writer : q.write_pos ≡ (r + (taken + back)) % 2 ^ 32

  -- What an access of a producer keeps; `back` doomed producers before it are `back'` after it.
  pub record Keeps (q q' : MpscQueue A) (p' : Pc A) (back' : ℕ) : Type 0 where
    pub capacity : q'.capacity ≡ q.capacity
    pub capacity_mask : q'.capacity_mask ≡ q.capacity_mask
    pub reader : q'.read_pos ≡ q.read_pos
    pub slot : q'.seq (bit_and r mask) ≡ q.seq (bit_and r mask)
    pub fine : IsFine p'
    pub counted : IsCounted q' back'

  recount :
      (q q' : MpscQueue A) {back back' : ℕ}
      → q'.write_pos ≡ q.write_pos
      → back' ≡ back
      → IsCounted q back
      → IsCounted q' back'
  recount q q' same e w = record {
    taken = w.taken;
    some_taken = w.some_taken;
    not_more = w.not_more;
    writer = same ∙ (w.writer ∙ ap (λ b. (r + (w.taken + b)) % 2 ^ 32) (sym e));
  }

  module _ (apart : (k : ℕ) → 0 < k → k < c → bit_and ((r + k) % 2 ^ 32) mask ≢ bit_and r mask)
      (small : c + n < 2 ^ 32) (inside : r < 2 ^ 32) where
    -- A store to the slot of such a position does not touch the slot of the reader.
    slot-elsewhere :
        (q : MpscQueue A) (write v : ℕ)
        → q.capacity_mask ≡ mask
        → IsBehind r c write
        → update q.seq (bit_and write q.capacity_mask) v (bit_and r mask) ≡ q.seq (bit_and r mask)
    slot-elsewhere q write v hm (k, at, pos, lt) =
        update_ne q.seq (bit_and write q.capacity_mask) (bit_and r mask) v (λ e.
          apart k pos lt (ap (λ w. bit_and w mask) (sym at) ∙ (ap (bit_and write) (sym hm) ∙ e)))

    pub producer_step-Keeps :
        (q : MpscQueue A) (e : A) (p : Pc A) (back back' : ℕ)
        → q.capacity ≡ c
        → q.capacity_mask ≡ mask
        → q.read_pos ≡ r
        → IsFine p
        → IsCounted q back
        → back' + doomed p ≡ back + doomed (producer_step q e p).1
        → doomed p ≤ back
        → back ≤ n
        → Keeps q (producer_step q e p).0 (producer_step q e p).1 back'
    unfolding producer_step
    producer_step-Keeps q e idle back back' hc hm hr f w sum le bound =
        let k = w.taken + back in
        let distance : sub32 q.write_pos r ≡ k =
          omega (arith, w.writer, w.not_more, w.some_taken) in
        record {
          capacity = refl;
          capacity_mask = refl;
          reader = refl;
          slot = refl;
          fine = (k, w.writer, omega (arith, w.some_taken), omega (arith, w.not_more));
          counted = elim (Bool-cases (leb c (sub32 q.write_pos r))) [
            | inl far ↦ record {
              taken = w.taken;
              some_taken = w.some_taken;
              not_more = w.not_more;
              writer = ground (arith, w.writer, far);
            }
            | inr near ↦ record {
              taken = w.taken + 1;
              some_taken = omega arith;
              not_more = ground (arith, near, distance);
              writer = ground (arith, w.writer, near);
            }
          ];
        }
    producer_step-Keeps q e (got write x) back back' hc hm hr (k, at, pos, lt) w sum le bound =
        let test : leb q.capacity (sub32 write q.read_pos) ≡ leb c k =
          ap₂ leb hc (ap (sub32 write) hr ∙ omega arith) in
        let same : leb c (sub32 write r) ≡ leb c k = ap (leb c) (omega arith) in
        elim (Bool-cases (leb c k)) [
          | inl far ↦ rw (test ∙ far) (record {
            capacity = refl;
            capacity_mask = refl;
            reader = refl;
            slot = refl;
            fine = tt;
            counted = recount q q refl (ground (arith, sum, same, test, far)) w;
          })
          | inr near ↦ rw (test ∙ near) (record {
            capacity = refl;
            capacity_mask = refl;
            reader = refl;
            slot = refl;
            fine = (k, at, pos, ground arith);
            counted = recount q q refl (ground (arith, sum, same, test, near)) w;
          })
        ]
    producer_step-Keeps q e rolling back back' hc hm hr f w sum le bound = record {
      capacity = refl;
      capacity_mask = refl;
      reader = refl;
      slot = refl;
      fine = tt;
      counted = record {
        taken = w.taken;
        some_taken = w.some_taken;
        not_more = w.not_more;
        writer = omega (arith, w.writer, w.some_taken, w.not_more);
      };
    }
    producer_step-Keeps q e (claiming write x) back back' hc hm hr f w sum le bound =
        let index = bit_and write q.capacity_mask in
        let desired = add32 write q.capacity in
        elim (Bool-cases (q.seq index == write)) [
          | inl free ↦ rw free (record {
            capacity = refl;
            capacity_mask = refl;
            reader = refl;
            slot = slot-elsewhere q write desired hm f;
            fine = f;
            counted =
                recount q (record q { seq = update q.seq index desired }) refl
                  (ground (arith, sum, free)) w;
          })
          | inr held ↦ elim (Bool-cases (q.seq index == desired)) [
            | inl broken ↦
                rw (held, broken)
                  (record {
                    capacity = refl;
                    capacity_mask = refl;
                    reader = refl;
                    slot = refl;
                    fine = f;
                    counted = recount q q refl (ground (arith, sum, held, broken)) w;
                  })
            | inr again ↦
                rw (held, again)
                  (record {
                    capacity = refl;
                    capacity_mask = refl;
                    reader = refl;
                    slot = refl;
                    fine = f;
                    counted = recount q q refl (ground (arith, sum, held, again)) w;
                  })
          ]
        ]
    producer_step-Keeps q e (copying write x) back back' hc hm hr f w sum le bound = record {
      capacity = refl;
      capacity_mask = refl;
      reader = refl;
      slot = refl;
      fine = f;
      counted = recount q (producer_step q e (copying write x)).0 refl (omega arith) w;
    }
    producer_step-Keeps q e (publishing write) back back' hc hm hr f w sum le bound = record {
      capacity = refl;
      capacity_mask = refl;
      reader = refl;
      slot = slot-elsewhere q write (add32 write 1) hm f;
      fine = tt;
      counted = recount q (producer_step q e (publishing write)).0 refl (omega arith) w;
    }
