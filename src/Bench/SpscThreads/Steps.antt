-- ===== src/Bench/SpscThreads/Steps.antt =====
-- The steps of the threads of `spsc_bench`, and what holds between them.
use lock_free_queues.Prelude.{
  ℕ, suc, ◌+◌, ◌≤◌, ◌<◌, ◌≡◌, inl, inr, refl, sym, ap, ap₂, ◌∙◌, subst, arith, List, [], ◌∷◌, ◌++◌,
  Bool, true, false, not, ◌&&◌, if◌then◌else◌, lt→ltb, le→ltb, ne→==, dec_lt, ℕ_discrete, ==_iff,
}
use lock_free_queues.Memory.Copy.{read_cells}
use lock_free_queues.Memory.Messages.{objects, objects-suc}
use lock_free_queues.SpscQueue.Threads.{
  Event, silent, pushed, refused, popped, missed, System, Turn, producer, consumer, turn, init,
  count,
}
use lock_free_queues.SpscQueue.Threads.Invariant.{HoldsAll}
use lock_free_queues.SpscQueue.Threads.Linear.{init-HoldsAll}
use lock_free_queues.Bench.SpscThreads.{
  ProducerPc, sending, joining, through, ConsumerPc, looping, popping, tried, leaving, threw,
  exported, has_exported, Bench, produce, after_pop, consume, step, run, start,
}
use lock_free_queues.Bench.SpscThreads.Turns.{Shows, pop_turn, push_turn}
use lock_free_queues.Bench.SpscThreads.Invariant.{
  Known, Joined, Stopped, Known-sent, Stopped-sent, Joined-sent, Joined-received, Kept, Kept-at,
  main_at,
}

module _ (width : ℕ) {A : Type 0} (changes : ℕ → ℕ → A) (n : ℕ) where
  abbrev Kept' : Bench A → Type 0
  Kept' = Kept width changes n

  produce-Kept :
      {s : Bench A} (m : ProducerPc)
      → Kept' s
      → Joined n m s.received s.queue.pushes
      → Kept' (produce width changes n s m)
  unfolding produce
  produce-Kept {s} sending k joined = elim (dec_lt s.queue.pushes n) [
    | yes more ↦
        let (s', e) = turn width changes producer s.queue in
        let (inv, of, does, sent, popped_same) = push_turn width changes k.queue in
        rw (lt→ltb s.queue.pushes n more) (record {
          queue = inv;
          counts = k.counts ∙ sym popped_same;
          in_order = k.in_order;
          within = omega (arith, sent, count-le e s.queue.pushes);
          stopped = Stopped-sent n s.running s.queue.pushes _ more k.stopped;
          joined = Joined-sent n s.main_pc s.received s.queue.pushes _ more k.joined;
          known = Known-sent n s.pc s.received s.queue.pushes _ more k.known;
        })
    | no all ↦ rw (le→ltb s.queue.pushes n (omega arith)) (record {
      queue = k.queue;
      counts = k.counts;
      in_order = k.in_order;
      within = k.within;
      stopped = omega (arith, k.within);
      joined = omega (arith, k.within);
      known = k.known;
    })
  ]
    where
      count-le : (e : Event A) (i : ℕ) → count e i ≤ i + 1
      count-le silent i = omega arith
      count-le (pushed x) i = omega arith
      count-le refused i = omega arith
      count-le (popped x) i = omega arith
      count-le missed i = omega arith
  produce-Kept {s} joining k joined = go s.pc k.known
    where
      go :
          (p : ConsumerPc)
          → Known n p s.received s.queue.pushes
          → Kept' (record s { main_pc = if has_exported p then through else joining })
      go looping known = main_at width changes n joining k joined
      go popping known = main_at width changes n joining k joined
      go (tried b) known = main_at width changes n joining k joined
      go leaving known = main_at width changes n joining k joined
      go threw known = main_at width changes n joining k joined
      go exported known = main_at width changes n through k known
  produce-Kept through k joined = k

  -- The consumer after a step of `try_pop`, which left the queue as `q`.
  module _ {s : Bench A} (q : System A) (k : Kept' s) (inv : HoldsAll width changes q)
      (pushes : q.pushes ≡ s.queue.pushes) where
    -- Nothing is received.
    unread :
        (p : ConsumerPc)
        → q.pops ≡ s.queue.pops
        → Known n p s.received s.queue.pushes
        → Kept' (record s { queue = q; pc = p })
    unread p pops known = record {
      queue = inv;
      counts = k.counts ∙ sym pops;
      in_order = k.in_order;
      within = omega (arith, k.within);
      stopped = subst (Stopped n s.running) (sym pushes) k.stopped;
      joined = subst (Joined n s.main_pc s.received) (sym pushes) k.joined;
      known = subst (Known n p s.received) (sym pushes) known;
    }

    after_pop-Kept :
        (e : Event A)
        → s.received < n
        → s.pc ≡ popping
        → Shows width changes s.queue.pushes s.queue.pops e
        → q.pops ≡ count e s.queue.pops
        → Kept' (after_pop width changes n (record s { queue = q }) e)
    after_pop-Kept silent more at shows pops = unread s.pc pops k.known
    after_pop-Kept missed more at shows pops = unread (tried false) pops tt
    after_pop-Kept (pushed x) more at shows pops = absurd shows
    after_pop-Kept refused more at shows pops = absurd shows
    after_pop-Kept (popped x) more at shows pops = record {
      queue = inv;
      counts = omega (arith, k.counts);
      in_order =
          ap₂ (λ xs y. xs ++ (y ∷ [])) k.in_order
            (shows.1 ∙ ap (λ i. read_cells (changes i) 0 width) (omega (arith, k.counts)))
          ∙ sym (objects-suc width changes 0 s.received)
          ∙ ap (objects width changes 0) {x = suc s.received} (omega arith);
      within = omega (arith, k.within);
      stopped = subst (Stopped n s.running) (sym pushes) k.stopped;
      joined =
          subst (Joined n s.main_pc (s.received + 1)) (sym pushes)
            (Joined-received n s.main_pc s.received s.queue.pushes more k.joined);
      known = tt;
    }

  consume-Kept :
      {s : Bench A} (p : ConsumerPc)
      → s.pc ≡ p
      → Kept' s
      → Known n p s.received s.queue.pushes
      → Kept' (consume width changes n s p)
  unfolding consume
  consume-Kept {s} looping at k known = elim (dec_lt s.received n) [
    | yes more ↦ rw (lt→ltb s.received n more) (Kept-at width changes n popping k more)
    | no all ↦ rw (le→ltb s.received n (omega arith)) (
        Kept-at width changes n leaving k (inl (omega (arith, k.counts, k.queue.behind, k.within))))
  ]
  consume-Kept {s} popping at k known =
      let (s', e) = turn width changes consumer s.queue in
      let (inv, shows, pops, pushes) = pop_turn width changes k.queue in
      after_pop-Kept s' k inv pushes e known at shows pops
  consume-Kept {s} (tried read) at k known = go s.running read k.stopped
    where
      go :
          (b r : Bool)
          → Stopped n b s.queue.pushes
          → Kept' (record s { pc = if not b && not r then leaving else looping })
      go true r stopped = Kept-at width changes n looping k tt
      go false true stopped = Kept-at width changes n looping k tt
      go false false stopped = Kept-at width changes n leaving k (inr stopped)
  consume-Kept {s} leaving at k known = elim (ℕ_discrete s.received n) [
    | yes all ↦ rw ((==_iff s.received n).1 all) (Kept-at width changes n exported k all)
    | no missing ↦ rw (ne→== s.received n missing) (
        Kept-at width changes n threw k (elim known [
          | inl all ↦ absurd (missing all)
          | inr sent ↦ (omega (arith, k.counts, k.queue.behind), sent)
        ]))
  ]
  consume-Kept threw at k known = k
  consume-Kept exported at k known = k

  pub step-Kept : (t : Turn) {s : Bench A} → Kept' s → Kept' (step width changes n t s)
  unfolding step
  step-Kept producer {s} k = produce-Kept s.main_pc k k.joined
  step-Kept consumer {s} k = consume-Kept s.pc refl k k.known

  pub run-Kept : (ts : List Turn) {s : Bench A} → Kept' s → Kept' (run width changes n ts s)
  unfolding run
  run-Kept [] k = k
  run-Kept (t ∷ ts) k = run-Kept ts (step-Kept t k)

  pub start-Kept : (blank : ℕ → ℕ → A) → Kept' (start blank)
  unfolding start init
  start-Kept blank = record {
    queue = init-HoldsAll width changes blank;
    counts = refl;
    in_order = refl;
    within = omega arith;
    stopped = tt;
    joined = tt;
    known = tt;
  }
