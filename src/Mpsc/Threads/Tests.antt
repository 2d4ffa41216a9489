-- ===== src/Mpsc/Threads/Tests.antt =====
-- A queue of two slots with three producers, where one gives its position back after another has claimed the next.
use si_log.Base.{ℕ, ◌≡◌, refl, ◌++◌, true, List, [], ◌∷◌, replicate}
use si_log.Mpsc.Threads.{
  Threads, Action, produce, consume, idle, waiting, producer_step, consumer_step, step, run,
}

abbrev at_first : Threads ℕ
at_first = record {
  queue = record {
    has_buffer = true;
    buffer = λ i. 0;
    element_size = 8;
    capacity = 2;
    write_pos = 0;
    read_pos = 0;
    has_seq = true;
    seq = λ i. i;
    capacity_mask = 1;
  };
  producers = replicate 3 idle;
  consumer = waiting;
  delivered = [];
}

-- Producer 0 fills the queue, producer 1 finds it full and producer 2 claims the position after it, the consumer
-- takes both elements, producer 2 pushes, and then producer 1 gives back.
abbrev schedule : List (Action ℕ)
schedule =
    replicate 5 (produce 0 10)
    ++ replicate 5 (produce 0 11)
    ++ replicate 2 (produce 1 12)
    ++ replicate 1 (produce 2 13)
    ++ replicate 8 consume
    ++ replicate 4 (produce 2 13)
    ++ replicate 1 (produce 1 12)

abbrev dead : Threads ℕ
dead = run schedule at_first

dead-delivered : dead.delivered ≡ 10 ∷ 11 ∷ []
unfolding run step producer_step consumer_step
dead-delivered = refl

dead-written : dead.queue.buffer 1 ≡ 13
unfolding run step producer_step consumer_step
dead-written = refl
