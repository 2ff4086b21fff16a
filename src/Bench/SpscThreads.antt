-- ===== src/Bench/SpscThreads.antt =====
-- `spsc_bench` and `consumer_spsc` of src/main.cpp as two threads over the model of `SPSCQueue`,
-- interleaved at each shared access of its calls and each access to `running`.
pub mod Turns
pub mod Invariant
pub mod Steps
pub mod Delivery
pub mod Seen
pub mod Refines
pub mod Meter
pub mod Growth
pub mod ConsumerGrowth
pub mod Rounds
pub mod Limit
pub mod Deadlock
pub mod Finish
mod Tests
use lock_free_queues.Prelude.{
  ℕ, ◌+◌, List, [], ◌∷◌, ◌++◌, Bool, true, false, not, ◌&&◌, ltb, ◌==◌, if◌then◌else◌,
}
use lock_free_queues.SpscQueue.Threads.{
  Event, silent, pushed, refused, popped, missed, System, Turn, producer, consumer, init,
}
use lock_free_queues.SpscQueue.Threads

-- Where the main thread stands: in its loop over `try_push`, in `join`, and behind it.
pub data ProducerPc : Type 0 where
  sending joining through : ProducerPc

-- Where the consumer stands: at the head of its loop, in `try_pop`, behind it with its result, behind
-- the loop, and at its two ends. An exception leaves the thread, so that the program ends there.
pub data ConsumerPc : Type 0 where
  looping popping : ConsumerPc
  tried : (read : Bool) → ConsumerPc
  leaving threw exported : ConsumerPc

abbrev pub has_exported : ConsumerPc → Bool
has_exported exported = true
has_exported _ = false

-- The queue counts what the producer's `i` counts; `received` is the consumer's `i`, and `got` has
-- the values of `best_lvl_change`.
pub record Bench (A : Type 0) : Type 0 where
  pub queue : System A
  pub running : Bool
  pub main_pc : ProducerPc
  pub pc : ConsumerPc
  pub received : ℕ
  pub got : List (List A)

-- `samples_count` messages of `width` words; `changes` has their words.
module _ (width : ℕ) {A : Type 0} (changes : ℕ → ℕ → A) (samples_count : ℕ) where
  unfoldable pub produce : Bench A → ProducerPc → Bench A
  produce s sending =
      if ltb s.queue.pushes samples_count
      then record s { queue = (Threads.turn width changes producer s.queue).0 }
      else record s { running = false; main_pc = joining }
  produce s joining = record s { main_pc = if has_exported s.pc then through else joining }
  produce s through = s

  -- What `try_pop` has done by the event of a step of it.
  abbrev pub after_pop : Bench A → Event A → Bench A
  after_pop s (popped object) = record s {
    pc = tried true;
    received = s.received + 1;
    got = s.got ++ (object ∷ []);
  }
  after_pop s missed = record s { pc = tried false }
  after_pop s _ = s

  unfoldable pub consume : Bench A → ConsumerPc → Bench A
  consume s looping = record s { pc = if ltb s.received samples_count then popping else leaving }
  consume s popping =
      let (q, e) = Threads.turn width changes consumer s.queue in
      after_pop (record s { queue = q }) e
  consume s (tried read) = record s { pc = if not s.running && not read then leaving else looping }
  consume s leaving = record s { pc = if s.received == samples_count then exported else threw }
  consume s threw = s
  consume s exported = s

  unfoldable pub step : Turn → Bench A → Bench A
  unfolding produce consume
  step producer s = produce s s.main_pc
  step consumer s = consume s s.pc

  unfoldable pub run : List Turn → Bench A → Bench A
  unfolding step
  run [] s = s
  run (t ∷ ts) s = run ts (step t s)

-- With `running` stored and the consumer's thread started; `blank` is what the slots hold.
unfoldable pub start : {A : Type 0} → (ℕ → ℕ → A) → Bench A
start blank = record {
  queue = init blank;
  running = true;
  main_pc = sending;
  pc = looping;
  received = 0;
  got = [];
}
