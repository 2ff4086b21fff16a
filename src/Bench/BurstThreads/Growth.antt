-- ===== src/Bench/BurstThreads/Growth.antt =====
-- What a step of the producer of the burst benchmark adds to what the threads have done.
use mathlib.Core.Bool.{true≢false}
use lock_free_queues.Prelude.{
  ℕ, suc, ◌+◌, ◌*◌, ◌≤◌, ◌<◌, ◌≡◌, sym, ap, ◌∙◌, subst, arith, inl, inr, Bool-cases, ltb, lt→ltb,
  le→ltb, dec_lt, update,
}
use lock_free_queues.SpmcQueue.{
  Shared, PushPc, ready, loaded, versioned, writing, stored, Consumer, push_step,
}
use lock_free_queues.SpmcQueue.System.{count_push}
use lock_free_queues.SpmcQueue.Invariant.{published}
use lock_free_queues.Bench.Burst.{epoch_count, epoch_start, epoch_messages}
use lock_free_queues.Bench.BurstThreads.{
  Place, at_start, working, at_end, finished, Burst, arrivals, enter, everyone, produce,
}
use lock_free_queues.Bench.BurstThreads.Advance.{update_all, update_both}
use lock_free_queues.Bench.BurstThreads.Producing.{Leads, BurstInv}
use lock_free_queues.Bench.BurstThreads.Meter.{spot, push_meter, pop_meter, push_step-meter}
use lock_free_queues.Bench.BurstThreads.Barriers.{everyone_here, ProducerCan}

published_grows :
    (bits width : ℕ) {A : Type 0} (val : ℕ → A) (mem : Shared A) (pc : PushPc) (k : ℕ)
    → published pc k ≤ published (push_step bits width val mem pc).1 (count_push pc k)
unfolding push_step
published_grows bits width val mem ready k = omega arith
published_grows bits width val mem (loaded w) k = omega arith
published_grows bits width val mem (versioned w v) k = omega arith
published_grows bits width val mem (writing w v i) k = elim (Bool-cases (ltb i width)) [
  | inl more ↦ rw more (omega arith)
  | inr over ↦ rw over (omega arith)
]
published_grows bits width val mem (stored w) k = omega arith

-- The head of the loop is the next place.
pub entered :
    (epochs e : ℕ)
    → e < epochs
    → (spot epochs (enter epochs (e + 1)) ≡ 3 * e + 3)
      × (2 * e + 2 ≤ arrivals epochs (enter epochs (e + 1)))
entered epochs e lt = elim (dec_lt (e + 1) epochs) [
  | yes more ↦ rw (lt→ltb (e + 1) epochs more) (omega arith, omega arith)
  | no over ↦ rw (le→ltb (e + 1) epochs (omega arith)) (omega arith, omega arith)
]

module _ (width : ℕ) {A : Type 0} (n burst consumer_count : ℕ) where
  abbrev pub producer_meter : Burst A → ℕ
  producer_meter s =
      spot (epoch_count n burst) s.producer + push_meter width s.queue.pc s.queue.pushed

  abbrev pub consumer_meter : Place → Consumer A → ℕ
  consumer_meter p k = spot (epoch_count n burst) p + pop_meter width k

  pub record Grows (s s' : Burst A) : Type 0 where
    pub arrives :
        arrivals (epoch_count n burst) s.producer ≤ arrivals (epoch_count n burst) s'.producer
    pub arrive :
        (c : ℕ)
        → arrivals (epoch_count n burst) (s.places c) ≤ arrivals (epoch_count n burst) (s'.places c)
    pub publishes : published s.queue.pc s.queue.pushed ≤ published s'.queue.pc s'.queue.pushed
    pub pushes : producer_meter s ≤ producer_meter s'
    pub pops :
        (c : ℕ)
        → c < consumer_count
        → consumer_meter (s.places c) (s.queue.consumers c)
          ≤ consumer_meter (s'.places c) (s'.queue.consumers c)

  pub still : (s : Burst A) → Grows s s
  still s = record {
    arrives = omega arith;
    arrive = λ c. omega arith;
    publishes = omega arith;
    pushes = omega arith;
    pops = λ c lt. omega arith;
  }

  move_producer :
      (s : Burst A) (p : Place)
      → arrivals (epoch_count n burst) s.producer ≤ arrivals (epoch_count n burst) p
      → spot (epoch_count n burst) p ≡ spot (epoch_count n burst) s.producer + 1
      → Grows s (record s { producer = p })
        × (producer_meter s + 1 ≤ producer_meter (record s { producer = p }))
  move_producer s p le up = (
    record {
      arrives = le;
      arrive = λ c. omega arith;
      publishes = omega arith;
      pushes = omega (arith, up);
      pops = λ c lt. omega arith;
    },
    omega (arith, up),
  )

  pub move_consumer :
      (s : Burst A) (c : ℕ) (p : Place)
      → arrivals (epoch_count n burst) (s.places c) ≤ arrivals (epoch_count n burst) p
      → spot (epoch_count n burst) (s.places c) ≤ spot (epoch_count n burst) p
      → Grows s (record s { places = update s.places c p })
  move_consumer s c p le up = record {
    arrives = omega arith;
    arrive =
        update_all
          (λ d q. arrivals (epoch_count n burst) (s.places d) ≤ arrivals (epoch_count n burst) q)
          s.places c p le (λ d. omega arith);
    publishes = omega arith;
    pushes = omega arith;
    pops = λ d lt.
        update_all
          (λ d q.
            consumer_meter (s.places d) (s.queue.consumers d)
            ≤ consumer_meter q (s.queue.consumers d))
          s.places c p (omega (arith, up)) (λ d. omega arith) d;
  }

  pub move_popper :
      (s : Burst A) (c : ℕ) (p : Place) (k : Consumer A)
      → arrivals (epoch_count n burst) (s.places c) ≤ arrivals (epoch_count n burst) p
      → consumer_meter (s.places c) (s.queue.consumers c) ≤ consumer_meter p k
      → Grows s (record s {
        queue = record (s.queue) { consumers = update s.queue.consumers c k };
        places = update s.places c p;
      })
  move_popper s c p k le up = record {
    arrives = omega arith;
    arrive =
        update_all
          (λ d q. arrivals (epoch_count n burst) (s.places d) ≤ arrivals (epoch_count n burst) q)
          s.places c p le (λ d. omega arith);
    publishes = omega arith;
    pushes = omega arith;
    pops = λ d lt.
        update_both
          (λ d q k. consumer_meter (s.places d) (s.queue.consumers d) ≤ consumer_meter q k) s.places
          s.queue.consumers c p k up (λ d. omega arith) d;
  }

module _ (bits width : ℕ) {A : Type 0} (changes : ℕ → ℕ → A) (n burst consumer_count : ℕ) {left : ℕ}
    {s : Burst A} (inv : BurstInv bits width changes n burst consumer_count (suc left) s) where
  abbrev epochs : ℕ
  epochs = epoch_count n burst

  abbrev Grown : Burst A → Type 0
  Grown = Grows width n burst consumer_count s

  valid : {e : ℕ} → s.producer ≡ at_end e → e < epochs
  valid at = (subst (λ q. Leads n burst q s.queue.pc s.queue.pushed) at inv.leading).valid

  -- A step of the producer from where it stands.
  pub produce-Grows :
      (p : Place)
      → s.producer ≡ p
      → Grown (produce bits width changes n burst consumer_count s p)
        × (ProducerCan n burst consumer_count p s
            → producer_meter width n burst consumer_count s + 1
              ≤ producer_meter width n burst consumer_count
                  (produce bits width changes n burst consumer_count s p))
  unfolding produce
  produce-Grows (at_start e) at = elim (Bool-cases (everyone epochs consumer_count (2 * e + 1) s)) [
    | inl free ↦ rw free (
        let moved =
          move_producer width n burst consumer_count s (working e 0)
            (omega (arith, ap (arrivals epochs) at)) (omega (arith, ap (spot epochs) at)) in
        (moved.0, λ can. moved.1))
    | inr shut ↦ rw shut (
      still width n burst consumer_count s,
      λ can.
          absurd (true≢false (sym (everyone_here n burst consumer_count (2 * e + 1) s can) ∙ shut)),
    )
  ]
  produce-Grows (working e i) at = elim (dec_lt i (epoch_messages n burst e)) [
    | yes more ↦ rw (lt→ltb i (epoch_messages n burst e) more) (
        let val = changes (epoch_start burst e + i) in
        let up =
          push_step-meter bits width changes val s.queue.mem s.queue.pushed s.queue.pushed
            s.queue.pc inv.queue.pushing.facts in
        (
          record {
            arrives = omega (arith, ap (arrivals epochs) at);
            arrive = λ c. omega arith;
            publishes = published_grows bits width val s.queue.mem s.queue.pc s.queue.pushed;
            pushes = omega (arith, up, ap (spot epochs) at);
            pops = λ c lt. omega arith;
          },
          λ can. omega (arith, up, ap (spot epochs) at),
        ))
    | no over ↦ rw (le→ltb i (epoch_messages n burst e) (omega arith)) (
        let moved =
          move_producer width n burst consumer_count s (at_end e)
            (omega (arith, ap (arrivals epochs) at)) (omega (arith, ap (spot epochs) at)) in
        (moved.0, λ can. moved.1))
  ]
  produce-Grows (at_end e) at = elim (Bool-cases (everyone epochs consumer_count (2 * e + 2) s)) [
    | inl free ↦ rw free (
        let moved =
          move_producer width n burst consumer_count s (enter epochs (e + 1))
            (omega (arith, ap (arrivals epochs) at, (entered epochs e (valid at)).1))
            (omega (arith, ap (spot epochs) at, (entered epochs e (valid at)).0)) in
        (moved.0, λ can. moved.1))
    | inr shut ↦ rw shut (
      still width n burst consumer_count s,
      λ can.
          absurd (true≢false (sym (everyone_here n burst consumer_count (2 * e + 2) s can) ∙ shut)),
    )
  ]
  produce-Grows finished at = (still width n burst consumer_count s, λ can. absurd can)
