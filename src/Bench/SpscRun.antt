-- ===== src/Bench/SpscRun.antt =====
-- `spsc_bench` and `consumer_spsc` of src/main.cpp: producer and consumer over one `SPSCQueue`,
-- interleaved at each call of the queue and each access to `running`.
pub mod Facts
use lock_free_queues.Prelude.{
  ℕ, zero, suc, ◌+◌, ◌-◌, List, [], ◌∷◌, Bool, true, false, not, ◌&&◌, ltb, ◌==◌, if◌then◌else◌,
}

-- Where the consumer stands: at the head of its loop, behind `try_pop` with its result, behind the
-- loop, and at its two ends.
pub data ConsumerPc : Type 0 where
  looping : ConsumerPc
  tried : (read : Bool) → ConsumerPc
  leaving : ConsumerPc
  threw : ConsumerPc
  exported : ConsumerPc

-- `held` objects are in the queue. `sent` and `received` are the two loop counters `i`.
pub record Bench : Type 0 where
  pub held : ℕ
  pub running : Bool
  pub sent : ℕ
  pub received : ℕ
  pub pc : ConsumerPc

pub data Turn : Type 0 where
  producer : Turn
  consumer : Turn

-- `samples_count` messages, over a queue that takes `capacity` objects.
module _ (capacity samples_count : ℕ) where
  -- The loop over `try_push`, and then the store to `running`.
  unfoldable pub produce : Bench → Bench
  produce s =
      if ltb s.sent samples_count
      then (if ltb s.held capacity then record s { held = s.held + 1; sent = s.sent + 1 } else s)
      else record s { running = false }

  unfoldable pub consume : Bench → ConsumerPc → Bench
  consume s looping =
      if ltb s.received samples_count
      then (if s.held == 0
          then record s { pc = tried false }
          else record s { held = s.held - 1; received = s.received + 1; pc = tried true })
      else record s { pc = leaving }
  consume s (tried read) = record s { pc = if not s.running && not read then leaving else looping }
  consume s leaving = record s { pc = if s.received == samples_count then exported else threw }
  consume s threw = s
  consume s exported = s

  unfoldable pub turn : Turn → Bench → Bench
  unfolding produce consume
  turn producer s = produce s
  turn consumer s = consume s s.pc

  unfoldable pub run : List Turn → Bench → Bench
  unfolding turn
  run [] s = s
  run (t ∷ ts) s = run ts (turn t s)

-- With `running` stored and the consumer's thread started.
unfoldable pub start : Bench
start = record { held = 0; running = true; sent = 0; received = 0; pc = looping }
