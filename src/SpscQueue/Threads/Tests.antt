-- ===== src/SpscQueue/Threads/Tests.antt =====
-- Two threads over a queue at small schedules, and the theorems there.
use lock_free_queues.Prelude.{ℕ, ◌+◌, ◌*◌, ◌<◌, ◌≡◌, ◌≢◌, refl, List, [], ◌∷◌, ◌++◌}
use lock_free_queues.SpscQueue.{wrap, is_full, used}
use lock_free_queues.Memory.Copy.{read_cells}
use lock_free_queues.SpscQueue.Contents.{capacity}
use lock_free_queues.SpscQueue.Threads.{
  pushed, popped, missed, silent, Turn, producer, consumer, push_step, pop_step, run, init,
}
use lock_free_queues.Trace.{carried, Trace}
use lock_free_queues.SpscQueue.Threads.Spec.{Does, pushed_object, popped_object}
use lock_free_queues.SpscQueue.Threads.Linear.{contents, run_objects-Trace, slots_apart}
use lock_free_queues.SpscQueue.Threads.Progress.{
  producer_turns, consumer_turns, try_push_returns, try_pop_returns, calls_return,
}

-- Object `n` has the words 10 n and 10 n + 1.
abbrev msg : ℕ → ℕ → ℕ
msg n k = 10 * n + k

abbrev blank : ℕ → ℕ → ℕ
blank j k = 99

-- The consumer finds the queue empty, an object goes in, and both threads go on at once.
abbrev schedule : List Turn
schedule =
    consumer ∷ consumer ∷ producer ∷ producer ∷ producer ∷ producer ∷ producer ∷ producer ∷ consumer
    ∷ producer ∷ consumer ∷ consumer ∷ producer ∷ []

abbrev both_done : List Turn
both_done = schedule ++ (consumer ∷ consumer ∷ [])

both_done_runs :
    (run 2 msg both_done (init blank)).1
    ≡ silent
      ∷ missed
      ∷ silent
      ∷ silent
      ∷ silent
      ∷ silent
      ∷ pushed (0 ∷ 1 ∷ [])
      ∷ silent
      ∷ silent
      ∷ silent
      ∷ silent
      ∷ silent
      ∷ silent
      ∷ silent
      ∷ popped (0 ∷ 1 ∷ [])
      ∷ []
unfolding run init push_step pop_step read_cells wrap is_full used
both_done_runs = refl

run_objects-Trace_example :
    let (s, es) = run 2 msg both_done (init blank) in
    Trace (Does capacity) [] es (contents 2 msg s)
    × (carried pushed_object es ≡ carried popped_object es ++ contents 2 msg s)
run_objects-Trace_example = run_objects-Trace 2 msg blank both_done

slots_apart_example : wrap 1 ≢ wrap 0
unfolding run init push_step pop_step wrap is_full used
slots_apart_example = slots_apart 2 msg blank schedule 1 1 0 (0 ∷ []) refl refl

calls_return_example :
    let es = (run 2 msg both_done (init blank)).1 in
    (producer_turns both_done < (2 + 3) * (try_push_returns es + 1))
    × (consumer_turns both_done < (2 + 3) * (try_pop_returns es + 1))
calls_return_example = calls_return 2 msg blank both_done
