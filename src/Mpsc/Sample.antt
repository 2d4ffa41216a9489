-- ===== src/Mpsc/Sample.antt =====
-- An empty queue of silog_comm/src/silog_mpsc.c with two slots.
use si_log.Base.{ℕ, zero, suc, ◌≤◌, ◌<◌, ◌^◌, ◌≡◌, refl, true, arith}
use si_log.Base.Bits.{bit_and_mask}
use si_log.Mpsc.{MpscQueue}
use si_log.Mpsc.Inv.{Holds, slot, position}

module _ {A : Type 0} where
  abbrev pub two_slots : ℕ → A → MpscQueue A
  two_slots element_size unused = record {
    has_buffer = true;
    buffer = λ i. unused;
    element_size = element_size;
    capacity = 2;
    write_pos = 0;
    read_pos = 0;
    has_seq = true;
    seq = λ i. i;
    capacity_mask = 1;
  }

  two_slots-free :
      (size : ℕ) (unused : A) (i : ℕ)
      → 0 ≤ i
      → i < 2
      → (two_slots size unused).seq (slot (two_slots size unused) i)
        ≡ position (two_slots size unused) i
  two_slots-free size unused zero ge h = refl
  two_slots-free size unused (suc zero) ge h = refl
  two_slots-free size unused (suc (suc i)) ge h = absurd (omega arith)

  pub two_slots-Holds : (size : ℕ) (unused : A) → Holds (two_slots size unused) 0
  two_slots-Holds size unused = record {
    ready = (refl, refl);
    nonempty = omega arith;
    small = omega arith;
    fits = omega arith;
    folds = 2 ^ 31;
    divides = refl;
    mask = bit_and_mask 32 2 (omega arith) (omega arith) refl;
    reader = omega arith;
    writer = refl;
    full = λ i h. absurd (omega arith);
    free = two_slots-free size unused;
  }
