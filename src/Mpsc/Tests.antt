-- ===== src/Mpsc/Tests.antt =====
-- The queue of four slots at positions about to wrap.
use Prim.Native.Nat.{bit_and}
use si_log.Base.{
  ℕ, zero, suc, ◌+◌, ◌-◌, ◌%◌, ◌≤◌, ◌^◌, ◌<◌, ◌≡◌, true, some, none, refl, List, [], ◌∷◌, ◌==◌,
  if◌then◌else◌, arith,
}
use si_log.Base.Bits.{bit_and_mask}
use si_log.Errors.{ok, trans_queue_full}
use si_log.Mpsc.{MpscQueue, push, pop, publish, claim_slot}
use si_log.Mpsc.Inv.{Holds}
use si_log.Mpsc.Run.{Call, put, get, run, run_fifo, run_refines}

-- The reader is at 2 ^ 32 - 1, in slot 3, with one element; the writer has wrapped to 0.
abbrev wrapped : MpscQueue ℕ
wrapped = record {
  has_buffer = true;
  buffer = λ i. if i == 3 then 42 else 0;
  element_size = 8;
  capacity = 4;
  write_pos = 0;
  read_pos = 2 ^ 32 - 1;
  has_seq = true;
  seq = λ i. if i == 3 then 0 else i;
  capacity_mask = 3;
}

abbrev one : List ℕ
one = 42 ∷ []

wrapped-full :
    (i : ℕ)
    → i < 1
    → wrapped.seq (bit_and ((2 ^ 32 - 1 + i) % 2 ^ 32) 3) ≡ ((2 ^ 32 - 1 + i) % 2 ^ 32 + 1) % 2 ^ 32
wrapped-full zero h = refl
wrapped-full (suc i) h = absurd (omega arith)

wrapped-free :
    (i : ℕ)
    → 1 ≤ i
    → i < 4
    → wrapped.seq (bit_and ((2 ^ 32 - 1 + i) % 2 ^ 32) 3) ≡ (2 ^ 32 - 1 + i) % 2 ^ 32
wrapped-free zero ge h = absurd (omega arith)
wrapped-free (suc zero) ge h = refl
wrapped-free (suc (suc zero)) ge h = refl
wrapped-free (suc (suc (suc zero))) ge h = refl
wrapped-free (suc (suc (suc (suc i)))) ge h = absurd (omega arith)

wrapped-Holds : Holds wrapped 1
wrapped-Holds = record {
  ready = (refl, refl);
  nonempty = omega arith;
  small = omega arith;
  fits = omega arith;
  folds = 2 ^ 30;
  divides = refl;
  mask = bit_and_mask 32 4 (omega arith) (omega arith) refl;
  reader = omega arith;
  writer = refl;
  full = wrapped-full;
  free = wrapped-free;
}

abbrev calls : List (Call ℕ)
calls = put 1 ∷ put 2 ∷ put 3 ∷ put 4 ∷ get ∷ get ∷ put 5 ∷ get ∷ []

run_refines_example : run (some wrapped) calls ≡ some (run_fifo 4 one calls)
run_refines_example = run_refines calls 1 wrapped-Holds

run_result :
    run (some wrapped) calls
    ≡ some (
        (ok, none)
        ∷ (ok, none)
        ∷ (ok, none)
        ∷ (trans_queue_full, none)
        ∷ (ok, some 42)
        ∷ (ok, some 1)
        ∷ (ok, none)
        ∷ (ok, some 2)
        ∷ [])
unfolding run push pop publish claim_slot
run_result = refl
