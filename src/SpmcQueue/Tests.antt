-- ===== src/SpmcQueue/Tests.antt =====
-- Runs of the SPMC queue on small inputs, and the theorems at them.
use lock_free_queues.Prelude.{
  ℕ, ◌+◌, ◌*◌, ◌^◌, ◌≤◌, ◌≡◌, refl, List, [], ◌∷◌, ◌++◌, arith, ◌/◌, ◌-◌,
}
use lock_free_queues.Memory.Copy.{read_cells}
use lock_free_queues.Memory.Messages.{objects}
use lock_free_queues.SpmcQueue.{
  wrap, expected_version, push_step, check, recheck, pop_step, pop_alone, waiting, aborted,
  Consumer,
}
use lock_free_queues.SpmcQueue.System.{Turn, produce, consume, run, init}
use lock_free_queues.SpmcQueue.Invariant.{published}
use lock_free_queues.SpmcQueue.Delivery.{
  reached, consumer, delivers_in_order, aborts_only_if_lapped,
}
use lock_free_queues.SpmcQueue.Progress.{produced, producer_wait_free}
use lock_free_queues.SpmcQueue.Outcome.{pop_delivers_next, pop_false_at_end, pop_aborts_behind}
use lock_free_queues.BroadcastLog.{Run, absent, delivered_to, missed_by}
use lock_free_queues.SpmcQueue.Refines.{log_of, run_events, spmc_refines_log}
use lock_free_queues.SpmcQueue.Calls.{turns_of, returns, pops_return}

-- The object of push `n` has the words 10 n and 10 n + 1.
abbrev msg : ℕ → ℕ → ℕ
msg n k = 10 * n + k

abbrev blank : ℕ → ℕ → ℕ
blank j k = 99

-- One call of `push` for objects of two words.
abbrev push_turns : List Turn
push_turns = produce ∷ produce ∷ produce ∷ produce ∷ produce ∷ produce ∷ produce ∷ []

abbrev pop_turns : List Turn
pop_turns = consume 0 ∷ consume 0 ∷ consume 0 ∷ consume 0 ∷ []

-- Two slots: consumer 0 is made, two objects are pushed, and it reads one.
abbrev two_pushes : List Turn
two_pushes = (consume 0 ∷ []) ++ (push_turns ++ push_turns)

abbrev one_read : List Turn
one_read = two_pushes ++ pop_turns

one_read_runs : (consumer 1 2 msg blank one_read 0).got ≡ (0 ∷ 1 ∷ []) ∷ []
unfolding run init push_step pop_step check recheck expected_version wrap
one_read_runs = refl

delivers_in_order_example :
    ((consumer 1 2 msg blank one_read 0).got
      ≡ objects 2 msg
          (consumer 1 2 msg blank one_read 0).start
          ((consumer 1 2 msg blank one_read 0).reader - (consumer 1 2 msg blank one_read 0).start))
    × ((consumer 1 2 msg blank one_read 0).start ≤ (consumer 1 2 msg blank one_read 0).reader)
    × ((consumer 1 2 msg blank one_read 0).reader
        ≤ published (reached 1 2 msg blank one_read 0).pc (reached 1 2 msg blank one_read 0).pushed)
delivers_in_order_example = delivers_in_order 1 2 msg blank one_read 0 (omega arith)

-- Four objects through two slots: the first is gone when the consumer looks.
abbrev lapped : List Turn
lapped = two_pushes ++ (push_turns ++ (push_turns ++ (consume 0 ∷ [])))

aborts_only_if_lapped_example :
    (consumer 1 2 msg blank lapped 0).reader + 2 ^ 1
    ≤ published (reached 1 2 msg blank lapped 0).pc (reached 1 2 msg blank lapped 0).pushed
unfolding run init push_step pop_step check recheck expected_version wrap
aborts_only_if_lapped_example = aborts_only_if_lapped 1 2 msg blank lapped 0 (omega arith) refl

producer_wait_free_example :
    (run 1 2 msg one_read (init blank)).pushed ≡ produced one_read / (2 + 5)
producer_wait_free_example = producer_wait_free 1 2 msg blank one_read (omega arith)

-- One object is there, and the consumer waits.
abbrev one_push : List Turn
one_push = (consume 0 ∷ []) ++ push_turns

abbrev me : Consumer ℕ
me = consumer 1 2 msg blank one_push 0

pop_delivers_next_example :
    pop_alone 1 2 (2 + 2) (reached 1 2 msg blank one_push 0).mem me ≡ record me {
      reader = me.reader + 1;
      pc = waiting;
      got = me.got ++ (read_cells (msg me.reader) 0 2 ∷ []);
    }
unfolding run init push_step pop_step check recheck expected_version wrap
pop_delivers_next_example =
    pop_delivers_next 1 2 msg blank one_push 0 (omega arith) refl (omega arith) (omega arith)

abbrev reader_done : Consumer ℕ
reader_done = consumer 1 2 msg blank (one_push ++ pop_turns) 0

pop_false_at_end_example :
    pop_step 1 2 (reached 1 2 msg blank (one_push ++ pop_turns) 0).mem reader_done reader_done.pc
    ≡ record reader_done { misses = reader_done.misses + 1 }
unfolding run init push_step pop_step check recheck expected_version wrap
pop_false_at_end_example =
    pop_false_at_end 1 2 msg blank (one_push ++ pop_turns) 0 (omega arith) refl refl

-- Three objects through two slots, and the consumer has not looked yet.
abbrev behind : List Turn
behind = two_pushes ++ push_turns

abbrev slow : Consumer ℕ
slow = consumer 1 2 msg blank behind 0

pop_aborts_behind_example :
    pop_step 1 2 (reached 1 2 msg blank behind 0).mem slow slow.pc ≡ record slow { pc = aborted }
unfolding run init push_step pop_step check recheck expected_version wrap
pop_aborts_behind_example =
    pop_aborts_behind 1 2 msg blank behind 0 (omega arith) refl (omega arith)

pops_return_example :
    turns_of 0 one_read ≤ (2 + 2) * (returns 1 2 (consumer 1 2 msg blank one_read 0) + 1)
unfolding run init push_step pop_step check recheck expected_version wrap
pops_return_example = pops_return 1 2 msg 0 blank one_read (omega arith) (λ e. cc)

-- One object is read, and the second left in the log.
spmc_refines_log_example :
    let s = run 1 2 msg one_read (init blank) in
    let es = run_events 1 2 msg one_read (init blank) in
    Run (2 ^ 1) (record { objects = []; cursor = λ c. absent }) es (log_of 1 2 msg s)
    × ((c : ℕ)
        → ((s.consumers c).got ≡ delivered_to c es) × ((s.consumers c).misses ≡ missed_by c es))
spmc_refines_log_example = spmc_refines_log 1 2 msg blank one_read (omega arith)
