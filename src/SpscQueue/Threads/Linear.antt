-- ===== src/SpscQueue/Threads/Linear.antt =====
-- What any schedule of the two threads of include/spsc_queue.hpp does.
use lock_free_queues.Prelude.{ℕ, ◌≡◌, ◌≢◌, subst, ◌∙◌, ◌++◌, List, [], ◌∷◌, arith}
use lock_free_queues.SpscQueue.{wrap}
use lock_free_queues.SpscQueue.Contents.{capacity, wrap_lem}
use lock_free_queues.SpscQueue.Threads.{
  storing, copying, Event, System, Turn, producer, consumer, turn, run, init,
}
use lock_free_queues.Trace.{carried, Trace, done, step, Trace-Balanced}
use lock_free_queues.SpscQueue.Threads.Spec.{Does, pushed_object, popped_object, Does-Balanced}
use lock_free_queues.SpscQueue.Threads.Invariant.{PushFacts, PopFacts, held, HoldsAll}
use lock_free_queues.SpscQueue.Threads.Push.{apart, push_step-Goes}
use lock_free_queues.SpscQueue.Threads.Pop.{pop_step-Goes}

module _ (width : ℕ) {A : Type 0} (msg : ℕ → ℕ → A) where
  abbrev pub contents : System A → List (List A)
  contents s = held width msg s.pushes s.pops

  abbrev pub Goes : System A → System A × Event A → Type 0
  Goes s (s', e) = HoldsAll width msg s' × Does capacity (contents s) e (contents s')

  pub turn-Goes : (t : Turn) {s : System A} → HoldsAll width msg s → Goes s (turn width msg t s)
  unfolding turn
  turn-Goes producer {s} inv = push_step-Goes width msg s.pusher inv
  turn-Goes consumer {s} inv = pop_step-Goes width msg s.popper inv

  pub init-HoldsAll : (blank : ℕ → ℕ → A) → HoldsAll width msg (init blank)
  unfolding init
  init-HoldsAll blank = record {
    writer_at = omega arith;
    reader_at = omega arith;
    behind = omega arith;
    room = omega arith;
    cells = λ i k lo hi lt. absurd (omega arith);
    pushing = tt;
    popping = tt;
  }

  pub run-HoldsAll :
      (ts : List Turn) {s : System A}
      → HoldsAll width msg s
      → HoldsAll width msg (run width msg ts s).0
        × Trace
            (Does capacity)
            (contents s)
            (run width msg ts s).1
            (contents (run width msg ts s).0)
  unfolding run
  run-HoldsAll [] inv = (inv, done)
  run-HoldsAll (t ∷ ts) {s} inv =
      let (inv', here) = turn-Goes t inv in
      let (end, rest) = run-HoldsAll ts inv' in (end, step here rest)

  -- After any schedule from an empty queue, what the callers have seen is a run of one bounded FIFO
  -- queue: each call took effect at one of its own steps, `try_push` returned false only while the
  -- queue was full and `try_pop` only while it was empty. So the objects that went in are those that
  -- came out and are held still, in order and whole.
  pub run_objects-Trace :
      (blank : ℕ → ℕ → A) (ts : List Turn)
      → let (s, es) = run width msg ts (init blank) in
        Trace (Does capacity) [] es (contents s)
        × (carried pushed_object es ≡ carried popped_object es ++ contents s)
  unfolding init
  run_objects-Trace blank ts =
      let (inv, trace) = run-HoldsAll ts (init-HoldsAll blank) in
      (
        trace,
        Trace-Balanced (Does capacity) pushed_object popped_object (Does-Balanced capacity) trace,
      )

  -- After any schedule from an empty queue, if the producer is writing the words of a slot while
  -- the consumer reads those of one, then these are two slots: the copies do not race.
  pub slots_apart :
      (blank : ℕ → ℕ → A) (ts : List Turn) (w k r : ℕ) (dst : List A)
      → let s = (run width msg ts (init blank)).0 in
        s.pusher ≡ storing w k → s.popper ≡ copying r dst → wrap w ≢ wrap r
  slots_apart blank ts w k r dst writing reading same =
      let s = (run width msg ts (init blank)).0 in
      let inv = (run-HoldsAll ts (init-HoldsAll blank)).0 in
      let push = subst (PushFacts width msg s.mem s.pushes s.pops) writing inv.pushing in
      let pop = subst (PopFacts width msg s.pushes s.pops) reading inv.popping in
      apart s.pushes s.pops s.pops push.0 push.1 (omega arith) pop.1
        (same ∙ omega (arith, wrap_lem r, pop.0))
