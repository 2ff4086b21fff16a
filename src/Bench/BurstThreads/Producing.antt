-- ===== src/Bench/BurstThreads/Producing.antt =====
-- The invariant of the burst benchmark's threads, and the producer's steps.
use lock_free_queues.Prelude.{
  ℕ, suc, ◌+◌, ◌*◌, ◌≤◌, ◌<◌, ◌≡◌, ◌≢◌, sym, ap, ◌∙◌, subst, arith, Bool-cases, inl, inr, true,
  dec_lt, lt→ltb, le→ltb,
}
use lock_free_queues.Prelude.Words.{word_mod}
use lock_free_queues.SpmcQueue.{
  PushPc, ready, loaded, versioned, writing, stored, making, Consumer, push_step,
}
use lock_free_queues.SpmcQueue.System.{System, count_push, turn, produce as push_turn}
use lock_free_queues.SpmcQueue.Invariant.{published}
use lock_free_queues.SpmcQueue.Delivery.{Inv, turn-Inv}
use lock_free_queues.Bench.Burst.{epoch_count, epoch_start, epoch_messages}
use lock_free_queues.Bench.BurstThreads.{
  Place, at_start, working, at_end, finished, Burst, arrivals, enter, everyone, produce,
}
use lock_free_queues.Bench.BurstThreads.Invariant.{
  phase, passed, ceiling, Valid, epoch_start_lem, enter_lem,
}
use lock_free_queues.Bench.BurstThreads.Advance.{published_step, both, consumers_arrived_lem}

count_push_lem :
    (pc : PushPc) (a i : ℕ) {k : ℕ}
    → k ≡ a + i
    → (count_push pc k ≡ a + count_push pc i) × (count_push pc i ≤ i + 1)
count_push_lem ready a i e = (e, omega arith)
count_push_lem (loaded w) a i e = (e, omega arith)
count_push_lem (versioned w v) a i e = (e, omega arith)
count_push_lem (writing w v k) a i e = (e, omega arith)
count_push_lem (stored w) a i e = (omega arith, omega arith)

module _ (n burst : ℕ) where
  -- A consumer and the place of its thread.
  pub record Follows {A : Type 0} (p : Place) (k : Consumer A) : Type 0 where
    pub valid : Valid n burst p
    pub popped : k.reader ≡ passed n burst p
    pub from_first : k.start ≡ 0
    pub made : k.pc ≢ making

  -- The producer's place, and what the queue holds then.
  pub record Leads (p : Place) (pc : PushPc) (k : ℕ) : Type 0 where
    pub valid : Valid n burst p
    pub pushed : k ≡ passed n burst p
    pub below : published pc k ≤ ceiling n burst p

module _ (bits width : ℕ) {A : Type 0} (changes : ℕ → ℕ → A) (n burst consumer_count : ℕ) where
  abbrev pub epochs : ℕ
  epochs = epoch_count n burst

  -- With `left` steps still to come.
  pub record BurstInv (left : ℕ) (s : Burst A) : Type 0 where
    pub queue : Inv bits width changes left s.queue
    pub leading : Leads n burst s.producer s.queue.pc s.queue.pushed
    pub following :
        (c : ℕ) → c < consumer_count → Follows n burst (s.places c) (s.queue.consumers c)
    pub together :
        (c : ℕ) → c < consumer_count → phase epochs s.producer ≤ arrivals epochs (s.places c)

  pub later :
      {left : ℕ} {q : System A}
      → Inv bits width changes (suc left) q
      → Inv bits width changes left q
  later inv = record {
    room = omega (arith, inv.room);
    pushing = inv.pushing;
    popping = inv.popping;
  }

  pub pause : {left : ℕ} {s : Burst A} → BurstInv (suc left) s → BurstInv left s
  pause inv = record {
    queue = later inv.queue;
    leading = inv.leading;
    following = inv.following;
    together = inv.together;
  }

  pub met_lem :
      (k : ℕ) (s : Burst A)
      → everyone epochs consumer_count k s ≡ true
      → (c : ℕ) → c < consumer_count
      → k ≤ arrivals epochs (s.places c)
  met_lem k s free c lt =
      consumers_arrived_lem epochs k s.places consumer_count c (both _ _ free).1 lt

  abbrev pushed_with : (ℕ → A) → System A → System A
  pushed_with val q = record q {
    mem = (push_step bits width val q.mem q.pc).0;
    pc = (push_step bits width val q.mem q.pc).1;
    pushed = count_push q.pc q.pushed;
  }

  abbrev pushed_on : ℕ → ℕ → Burst A → Burst A
  pushed_on e i s = record s {
    queue = pushed_with (changes (epoch_start burst e + i)) s.queue;
    producer = working e (count_push s.queue.pc i);
  }

  module _ (pos : 0 < burst) (fit : n + burst < word_mod) where
    move_producer :
        {left : ℕ} {s : Burst A} (p : Place)
        → BurstInv (suc left) s
        → Leads n burst p s.queue.pc s.queue.pushed
        → ((c : ℕ) → c < consumer_count → phase epochs p ≤ arrivals epochs (s.places c))
        → BurstInv left (record s { producer = p })
    move_producer p inv leads sync = record {
      queue = later inv.queue;
      leading = leads;
      following = inv.following;
      together = sync;
    }

    push-BurstInv :
        {left : ℕ} {s : Burst A} (e i : ℕ)
        → BurstInv (suc left) s
        → Leads n burst (working e i) s.queue.pc s.queue.pushed
        → ((c : ℕ) → c < consumer_count → phase epochs (working e i) ≤ arrivals epochs (s.places c))
        → i < epoch_messages n burst e
        → BurstInv left (pushed_on e i s)
    unfolding turn
    push-BurstInv {left} {s} e i inv leads sync lt = record {
      queue =
          subst (λ m. Inv bits width changes left (pushed_with (changes m) s.queue))
            (leads.pushed ∙ ap (λ k. k + i) (sym (epoch_start_lem n burst pos fit e leads.valid.0)))
            (turn-Inv bits width changes push_turn inv.queue);
      leading = record {
        valid = (
          leads.valid.0,
          omega (arith, (count_push_lem s.queue.pc (e * burst) i leads.pushed).1),
        );
        pushed = (count_push_lem s.queue.pc (e * burst) i leads.pushed).0;
        below = omega (
          arith,
          published_step bits width (changes (epoch_start burst e + i)) s.queue.mem s.queue.pc
              s.queue.pushed,
          leads.pushed,
        );
      };
      following = inv.following;
      together = sync;
    }

    pub produce-BurstInv :
        {left : ℕ} {s : Burst A} (p : Place)
        → BurstInv (suc left) s
        → Leads n burst p s.queue.pc s.queue.pushed
        → ((c : ℕ) → c < consumer_count → phase epochs p ≤ arrivals epochs (s.places c))
        → BurstInv left (produce bits width changes n burst consumer_count s p)
    unfolding produce
    produce-BurstInv {s = s} (at_start e) inv leads sync =
        elim (Bool-cases (everyone epochs consumer_count (2 * e + 1) s)) [
          | inl free ↦ rw free (
              move_producer (working e 0) inv
                (record {
                  valid = (leads.valid, omega arith);
                  pushed = omega (arith, leads.pushed);
                  below = omega (arith, leads.below);
                })
                (met_lem (2 * e + 1) s free))
          | inr shut ↦ rw shut (pause inv)
        ]
    produce-BurstInv {s = s} (working e i) inv leads sync =
        elim (dec_lt i (epoch_messages n burst e)) [
          | yes more ↦
              rw (lt→ltb i (epoch_messages n burst e) more) (push-BurstInv e i inv leads sync more)
          | no over ↦ rw (le→ltb i (epoch_messages n burst e) (omega arith)) (
              move_producer (at_end e) inv
                (record {
                  valid = leads.valid.0;
                  pushed = omega (arith, leads.pushed, leads.valid.1);
                  below = leads.below;
                })
                sync)
        ]
    produce-BurstInv {s = s} (at_end e) inv leads sync =
        elim (Bool-cases (everyone epochs consumer_count (2 * e + 2) s)) [
          | inl free ↦ rw free (
              let next = enter_lem n burst pos fit e leads.valid in
              move_producer (enter epochs (e + 1)) inv
                (record {
                  valid = next.0;
                  pushed = leads.pushed ∙ sym next.1;
                  below = omega (arith, leads.below, next.1, next.2);
                })
                (λ c lt. omega (arith, next.3, met_lem (2 * e + 2) s free c lt)))
          | inr shut ↦ rw shut (pause inv)
        ]
    produce-BurstInv finished inv leads sync = pause inv
