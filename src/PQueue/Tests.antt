-- ===== src/PQueue/Tests.antt =====
-- The priority queue at concrete queues of numbers, greater numbers preferred.
use si_log.Base.{
  false, ℕ, zero, suc, ◌+◌, ◌*◌, ◌^◌, ◌<◌, ◌≡◌, ◌↔◌, Bool, true, Option, none, some, ltb, List, [],
  ◌∷◌, get_or, cells, refl, if◌then◌else◌, arith,
}
use si_log.Base.Int.{ℤ, pos, negsuc}
use si_log.Errors.{ok, busy}
use si_log.PQueue.{PQueue, init, has_cell, push, pop, sift_up, sift_down}
use si_log.PQueue.Order.{Below, IsOrder, IsHeap}
use si_log.PQueue.Contents.{count}
use si_log.PQueue.Push.{IsBacked, push_lem, push_full, push-contents}
use si_log.PQueue.Pop.{pop_lem, pop-breaks-IsHeap}
use si_log.PQueue.Capacity.{IsRoomy, init-IsRoomy}

abbrev greater : ℕ → ℕ → ℤ
greater a b = if ltb b a then pos 1 else (if ltb a b then negsuc 0 else pos 0)

greater-IsOrder : IsOrder greater
greater-IsOrder = record {
  below_refl = λ a. ground arith;
  below_of_above = λ a b h. ground arith;
  below_trans = λ a b c h k. ground arith;
}

abbrev of_list : List ℕ → ℕ → PQueue ℕ
of_list xs n = record {
  buffer = λ i. get_or xs i 0;
  allocated = 64;
  element_size = 8;
  capacity = 8;
  size = n;
  compare = greater;
}

abbrev three : PQueue ℕ
three = of_list (9 ∷ 4 ∷ 7 ∷ []) 3

abbrev mixed : PQueue ℕ
mixed = of_list (4 ∷ 9 ∷ 7 ∷ []) 3

-- Eight elements of 8 bytes.
three-IsBacked : IsBacked three
three-IsBacked = ((λ i lt. omega arith), omega arith)

abbrev seven : PQueue ℕ
seven = of_list (10 ∷ 9 ∷ 8 ∷ 7 ∷ 6 ∷ 5 ∷ 1 ∷ []) 7

three-IsHeap : IsHeap greater three.buffer 3
three-IsHeap zero p q = absurd (omega arith)
three-IsHeap (suc zero) p q = refl
three-IsHeap (suc (suc zero)) p q = refl
three-IsHeap (suc (suc (suc i))) p q = absurd (omega arith)

seven-IsHeap : IsHeap greater seven.buffer 7
seven-IsHeap zero p q = absurd (omega arith)
seven-IsHeap (suc zero) p q = refl
seven-IsHeap (suc (suc zero)) p q = refl
seven-IsHeap (suc (suc (suc zero))) p q = refl
seven-IsHeap (suc (suc (suc (suc zero)))) p q = refl
seven-IsHeap (suc (suc (suc (suc (suc zero))))) p q = refl
seven-IsHeap (suc (suc (suc (suc (suc (suc zero)))))) p q = refl
seven-IsHeap (suc (suc (suc (suc (suc (suc (suc i))))))) p q = absurd (omega arith)

abbrev contents : Option (PQueue ℕ) → List ℕ
contents none = []
contents (some q) = cells q.buffer 0 q.size

push_result : contents (push true (some three) (some 8)).1 ≡ 9 ∷ 8 ∷ 7 ∷ 4 ∷ []
unfolding push has_cell sift_up
push_result = refl

pop_result : contents (pop true (some seven) true).2 ≡ 9 ∷ 1 ∷ 8 ∷ 7 ∷ 6 ∷ 5 ∷ []
unfolding pop sift_down
pop_result = refl

push_lem_example :
    (q' : PQueue ℕ) × (push true (some three) (some 8) ≡ (ok, some q'))
    × (q' ≡ record three { buffer = q'.buffer; size = 4 })
    × IsHeap greater q'.buffer q'.size
    × ((p : ℕ → Bool) → count p q'.buffer q'.size ≡ count p three.buffer 3 + (if p 8 then 1 else 0))
push_lem_example = push_lem three 8 greater-IsOrder three-IsHeap three-IsBacked (omega arith)

-- No memory for the scratch element, and a queue that is no heap.
push-contents_example :
    (q' : PQueue ℕ) × (push false (some mixed) (some 8) ≡ (ok, some q'))
    × (q' ≡ record mixed { buffer = q'.buffer; size = 4 })
    × ((p : ℕ → Bool) → count p q'.buffer q'.size ≡ count p mixed.buffer 3 + (if p 8 then 1 else 0))
push-contents_example = push-contents mixed 8 false three-IsBacked (omega arith)

push_full_example :
    push true (some (record three { capacity = 3 })) (some 8)
    ≡ (busy, some (record three { capacity = 3 }))
push_full_example = push_full (record three { capacity = 3 }) 8 true (omega arith)

pop_lem_example :
    (top : ℕ) × (q' : PQueue ℕ) × (pop true (some seven) true ≡ (ok, some top, some q'))
    × (q'.size + 1 ≡ 7)
    × ((i : ℕ) → i < 7 → Below greater (seven.buffer i) top)
    × ((p : ℕ → Bool)
        → count p q'.buffer q'.size + (if p top then 1 else 0) ≡ count p seven.buffer 7)
pop_lem_example = pop_lem seven greater-IsOrder seven-IsHeap (omega arith)

pop-breaks-IsHeap_example :
    (q' : PQueue ℕ) × (pop true (some seven) true ≡ (ok, some 10, some q'))
    × ¬ (IsHeap greater q'.buffer q'.size)
pop-breaks-IsHeap_example =
    pop-breaks-IsHeap seven greater-IsOrder seven-IsHeap (omega arith) refl refl

init-IsRoomy_example :
    (q' : PQueue ℕ) × (init (λ n. some (λ i. 0)) (some three) 512 128 (some greater)
      ≡ (ok, some q'))
    × (q'.size ≡ 0)
    × (q'.capacity ≡ 128)
    × (IsRoomy q' ↔ (512 * 128 < 2 ^ 32))
init-IsRoomy_example =
    init-IsRoomy (λ n. some (λ i. 0)) three 512 128 greater (omega arith) (omega arith) refl
