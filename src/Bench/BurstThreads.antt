-- ===== src/Bench/BurstThreads.antt =====
-- The threads of `run_spmc_burst_bench` of src/spmc_burst_bench.cpp over the model of `SPMCQueue`:
-- the producer and the consumers, held together by the two barriers of each epoch.
pub mod Invariant
pub mod Advance
pub mod Producing
pub mod Consuming
pub mod Near
pub mod Delivery
pub mod Meter
pub mod Barriers
pub mod Deadlock
pub mod Growth
pub mod ConsumerGrowth
pub mod Others
pub mod Rounds
pub mod Limit
pub mod Finish
mod Tests
use lock_free_queues.Prelude.{
  ℕ, zero, suc, ◌+◌, ◌-◌, ◌*◌, Bool, true, false, ◌&&◌, ltb, leb, if◌then◌else◌, List, [], ◌∷◌,
  update, length,
}
use lock_free_queues.SpmcQueue.{Shared, PushPc, ready, Consumer, making, push_step, pop_step}
use lock_free_queues.SpmcQueue.System.{System, count_push, newcomer}
use lock_free_queues.Bench.Burst.{epoch_count, epoch_start, epoch_messages}

-- Where a thread stands in its loop over the epochs: it has arrived at `epoch_start` and waits, it
-- is in the inner loop at `i`, it has arrived at `epoch_end` and waits, or it is through.
pub data Place : Type 0 where
  at_start : (epoch : ℕ) → Place
  working : (epoch i : ℕ) → Place
  at_end : (epoch : ℕ) → Place
  finished : Place

pub record Burst (A : Type 0) : Type 0 where
  pub queue : System A
  pub producer : Place
  pub places : ℕ → Place

pub data Actor : Type 0 where
  producer : Actor
  consumer : (c : ℕ) → Actor

-- The arrivals of a thread at the two barriers so far.
abbrev pub arrivals : ℕ → Place → ℕ
arrivals epochs (at_start e) = 2 * e + 1
arrivals epochs (working e i) = 2 * e + 1
arrivals epochs (at_end e) = 2 * e + 2
arrivals epochs finished = 2 * epochs

-- The head of the loop over the epochs: the next one, or the end.
abbrev pub enter : ℕ → ℕ → Place
enter epochs e = if ltb e epochs then at_start e else finished

-- What std::barrier waits for: the k-th arrival of each of the first `count` consumers.
unfoldable pub consumers_arrived : ℕ → ℕ → (ℕ → Place) → ℕ → Bool
consumers_arrived epochs k places zero = true
consumers_arrived epochs k places (suc c) =
    leb k (arrivals epochs (places c)) && consumers_arrived epochs k places c

-- Whether the barrier that a thread passes after `k` arrivals is open.
abbrev pub everyone : {A : Type 0} → ℕ → ℕ → ℕ → Burst A → Bool
everyone epochs consumer_count k s =
    leb k (arrivals epochs s.producer) && consumers_arrived epochs k s.places consumer_count

-- `n` messages in bursts of `burst`; `changes` has the words of each message.
module _ (bits width : ℕ) {A : Type 0} (changes : ℕ → ℕ → A) (n burst consumer_count : ℕ) where
  abbrev met : ℕ → Burst A → Bool
  met k s = everyone (epoch_count n burst) consumer_count k s

  -- The main thread.
  unfoldable pub produce : Burst A → Place → Burst A
  produce s (at_start e) = if met (2 * e + 1) s then record s { producer = working e 0 } else s
  produce s (working e i) =
      let q = s.queue in
      let (m, pc) = push_step bits width (changes (epoch_start burst e + i)) q.mem q.pc in
      if ltb i (epoch_messages n burst e)
      then record s {
        queue = record q { mem = m; pc = pc; pushed = count_push q.pc q.pushed };
        producer = working e (count_push q.pc i);
      }
      else record s { producer = at_end e }
  produce s (at_end e) =
      if met (2 * e + 2) s then record s { producer = enter (epoch_count n burst) (e + 1) } else s
  produce s finished = s

  -- The thread of consumer `c`.
  unfoldable pub consume : Burst A → ℕ → Place → Burst A
  consume s c (at_start e) =
      if met (2 * e + 1) s then record s { places = update s.places c (working e 0) } else s
  consume s c (working e i) =
      let q = s.queue in
      let k = q.consumers c in
      let k' = pop_step bits width q.mem k k.pc in
      if ltb i (epoch_messages n burst e)
      then record s {
        queue = record q { consumers = update q.consumers c k' };
        places = update s.places c (working e (i + (length k'.got - length k.got)));
      }
      else record s { places = update s.places c (at_end e) }
  consume s c (at_end e) =
      if met (2 * e + 2) s
      then record s { places = update s.places c (enter (epoch_count n burst) (e + 1)) }
      else s
  consume s c finished = s

  unfoldable pub step : Actor → Burst A → Burst A
  unfolding produce consume
  step producer s = produce s s.producer
  step (consumer c) s = if ltb c consumer_count then consume s c (s.places c) else s

  unfoldable pub run : List Actor → Burst A → Burst A
  unfolding step
  run [] s = s
  run (a ∷ rest) s = run rest (step a s)

  -- The queue as constructed, with the consumers made; `blank` is what its slots hold.
  unfoldable pub start : (ℕ → ℕ → A) → Burst A
  unfolding pop_step
  start blank =
      let m : Shared A = record { writer = 0; version = λ _. 0; cells = blank } in
      record {
        queue = record {
          mem = m;
          pc = ready;
          pushed = 0;
          consumers = λ _. pop_step bits width m (newcomer A) making;
        };
        producer = enter (epoch_count n burst) 0;
        places = λ _. enter (epoch_count n burst) 0;
      }
