-- ===== src/Bench/BurstThreads/Delivery.antt =====
-- What any schedule of the threads of src/spmc_burst_bench.cpp does.
use lock_free_queues.Prelude.{
  ℕ, suc, ◌+◌, ◌*◌, ◌^◌, ◌≤◌, ◌<◌, ◌≡◌, refl, ap, ap₂, ◌∙◌, subst, arith, length, List, [], ◌∷◌,
  dec_lt, lt→ltb, le→ltb,
}
use lock_free_queues.Prelude.Words.{word_mod}
use lock_free_queues.Memory.Messages.{objects}
use lock_free_queues.SpmcQueue.{aborted}
use lock_free_queues.SpmcQueue.System.{init}
use lock_free_queues.SpmcQueue.Invariant.{bound, published}
use lock_free_queues.SpmcQueue.Delivery.{init-Inv}
use lock_free_queues.Bench.Burst.{epoch_count, epoch_messages}
use lock_free_queues.Bench.BurstThreads.{Burst, Actor, producer, consumer, enter, step, run, start}
use lock_free_queues.Bench.BurstThreads.Invariant.{phase, passed, ceiling, Valid, cover}
use lock_free_queues.Bench.BurstThreads.Near
use lock_free_queues.Bench.BurstThreads.Producing.{BurstInv, pause, produce-BurstInv}
use lock_free_queues.Bench.BurstThreads.Consuming.{consume-BurstInv}

module _ (bits width : ℕ) {A : Type 0} (changes : ℕ → ℕ → A) (n burst consumer_count : ℕ) where
  -- The benchmark after a schedule.
  abbrev pub reached : (ℕ → ℕ → A) → List Actor → Burst A
  reached blank schedule =
      run bits width changes n burst consumer_count schedule
        (start bits width changes n burst consumer_count blank)

module _ (bits width : ℕ) {A : Type 0} (changes : ℕ → ℕ → A) (n burst consumer_count : ℕ)
    (pos : 0 < burst) (fit : n + burst < word_mod) where
  abbrev pub Inv' : ℕ → Burst A → Type 0
  Inv' = BurstInv bits width changes n burst consumer_count

  pub step-BurstInv :
      (a : Actor) {left : ℕ} {s : Burst A}
      → Inv' (suc left) s
      → Inv' left (step bits width changes n burst consumer_count a s)
  unfolding step
  step-BurstInv producer {s = s} inv =
      produce-BurstInv bits width changes n burst consumer_count pos fit s.producer inv inv.leading
        inv.together
  step-BurstInv (consumer c) {s = s} inv = elim (dec_lt c consumer_count) [
    | yes lt ↦ rw (lt→ltb c consumer_count lt) (
        consume-BurstInv bits width changes n burst consumer_count pos fit c (s.places c) inv
          (inv.following c lt, inv.together c lt))
    | no ge ↦
        rw (le→ltb c consumer_count (omega arith))
          (pause bits width changes n burst consumer_count inv)
  ]

  pub run-BurstInv :
      (schedule : List Actor) {left : ℕ} {s : Burst A}
      → Inv' (length schedule + left) s
      → Inv' left (run bits width changes n burst consumer_count schedule s)
  unfolding run
  run-BurstInv [] {left} {s} inv = subst (λ k. Inv' k s) (omega arith) inv
  run-BurstInv (a ∷ rest) {left} {s} inv =
      run-BurstInv rest (step-BurstInv a (subst (λ k. Inv' k s) (omega arith) inv))

  -- The head of the loop before the first epoch.
  first_place :
      Valid n burst (enter (epoch_count n burst) 0)
      × (0 ≡ passed n burst (enter (epoch_count n burst) 0))
      × (0 ≤ ceiling n burst (enter (epoch_count n burst) 0))
      × (phase (epoch_count n burst) (enter (epoch_count n burst) 0) ≡ 0)
  first_place = elim (dec_lt 0 (epoch_count n burst)) [
    | yes more ↦
        rw (lt→ltb 0 (epoch_count n burst) more) (more, omega arith, omega arith, omega arith)
    | no over ↦
        let empty = ap (λ k. k * burst) {x = epoch_count n burst} {y = 0} (omega arith) in
        rw (le→ltb 0 (epoch_count n burst) (omega arith))
          (tt, omega (arith, empty, cover n burst pos fit), omega arith, omega arith)
  ]

  pub start-BurstInv :
      (blank : ℕ → ℕ → A) (left : ℕ)
      → left < bound
      → Inv' left (start bits width changes n burst consumer_count blank)
  unfolding start init
  start-BurstInv blank left lt = record {
    queue = record {
      room = (init-Inv bits width changes left blank lt).room;
      pushing = (init-Inv bits width changes left blank lt).pushing;
      popping =
          λ c. record { after = omega arith; behind = omega arith; in_order = refl; facts = tt };
    };
    leading = record { valid = first_place.0; pushed = first_place.1; below = first_place.2 };
    following = λ c lt. record {
      valid = first_place.0;
      popped = first_place.1;
      from_first = refl;
      made = λ e. cc;
    };
    together = λ c lt. omega (arith, first_place.3);
  }

  module _ (blank : ℕ → ℕ → A) (schedule : List Actor) (c : ℕ) where
    abbrev s : Burst A
    s = reached bits width changes n burst consumer_count blank schedule

    reached-BurstInv : length schedule < bound → Inv' 0 s
    reached-BurstInv lt =
        run-BurstInv schedule (start-BurstInv blank (length schedule + 0) (omega arith))

    -- For a positive burst size, and if messages and burst size add up to less than 2^64, after any
    -- schedule of fewer than 2^62 steps of the benchmark's threads a consumer has received, whole
    -- and in order, the changes of the epochs that it is through with and as many of its epoch as
    -- its loop has counted; a thread that has finished has received all of them.
    pub receives_every_change :
        length schedule < bound
        → c < consumer_count
        → (s.queue.consumers c).got ≡ objects width changes 0 (passed n burst (s.places c))
    receives_every_change steps lt =
        let inv = reached-BurstInv steps in
        let follows = inv.following c lt in
        (inv.queue.popping c).in_order
        ∙ ap₂ (objects width changes) follows.from_first
            (omega (arith, follows.from_first, follows.popped))

    -- For a positive burst size, and if messages and burst size add up to less than 2^64, after any
    -- schedule of fewer than 2^62 steps of the benchmark's threads, a consumer that has aborted is
    -- in the middle of an epoch: it has received the changes of the epochs before and the first `i`
    -- of this one, the epoch has at least as many messages after these as the queue has slots, and
    -- the producer has published as many of them. So no consumer aborts in an epoch of fewer messages
    -- than slots: the barriers keep the producer in the epoch of the slowest consumer.
    pub aborts_within_epoch :
        length schedule < bound
        → c < consumer_count
        → (s.queue.consumers c).pc ≡ aborted
        → (e : ℕ) × (i : ℕ) × (e < epoch_count n burst)
          × ((s.queue.consumers c).got ≡ objects width changes 0 (e * burst + i))
          × (i + 2 ^ bits ≤ epoch_messages n burst e)
          × (e * burst + i + 2 ^ bits ≤ published s.queue.pc s.queue.pushed)
    aborts_within_epoch steps lt gone =
        let inv = reached-BurstInv steps in
        let (e, i, some, at, room) =
          Near.lapped-Inside bits width changes n burst consumer_count inv pos fit c lt gone in
        (
          e,
          i,
          some,
          receives_every_change steps lt ∙ ap (objects width changes 0) at,
          room,
          omega (
            arith,
            Near.lapped bits width changes n burst consumer_count inv pos fit c lt gone,
            (inv.following c lt).popped,
            at,
          ),
        )
