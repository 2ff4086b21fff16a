-- ===== src/SpscQueue/Threads/Progress.antt =====
-- The turns of its own thread that a call of `try_push` or `try_pop` takes.
use lock_free_queues.Prelude.{
  ℕ, suc, ◌+◌, ◌*◌, ◌≤◌, ◌<◌, ◌≡◌, refl, List, [], ◌∷◌, arith, length, length-append, dec_lt,
  lt→ltb, le→ltb, Bool-cases, inl, inr, ◌==◌,
}
use lock_free_queues.Prelude.Words.{mul_split}
use lock_free_queues.SpscQueue.{is_full, wrap}
use lock_free_queues.SpscQueue.Threads.{
  Shared, PushPc, ready, loaded, storing, PopPc, waiting, seen, copying, Event, silent, pushed,
  refused, popped, missed, push_step, pop_step, System, Turn, producer, consumer, turn, run, init,
}
use lock_free_queues.SpscQueue.Threads.Invariant.{PushFacts, PopFacts, HoldsAll}
use lock_free_queues.SpscQueue.Threads.Linear.{turn-Goes, run-HoldsAll, init-HoldsAll}

-- The turns of a thread in a schedule.
abbrev pub producer_turns : List Turn → ℕ
producer_turns [] = 0
producer_turns (producer ∷ ts) = suc (producer_turns ts)
producer_turns (consumer ∷ ts) = producer_turns ts

abbrev pub consumer_turns : List Turn → ℕ
consumer_turns [] = 0
consumer_turns (producer ∷ ts) = consumer_turns ts
consumer_turns (consumer ∷ ts) = suc (consumer_turns ts)

-- The steps of a call that are done.
abbrev pub push_done : PushPc → ℕ
push_done ready = 0
push_done (loaded w) = 1
push_done (storing w k) = 2 + k

module _ {A : Type 0} where
  -- The calls that have returned.
  abbrev pub try_push_returns : List (Event A) → ℕ
  try_push_returns [] = 0
  try_push_returns (pushed x ∷ es) = suc (try_push_returns es)
  try_push_returns (refused ∷ es) = suc (try_push_returns es)
  try_push_returns (_ ∷ es) = try_push_returns es

  abbrev pub try_pop_returns : List (Event A) → ℕ
  try_pop_returns [] = 0
  try_pop_returns (popped x ∷ es) = suc (try_pop_returns es)
  try_pop_returns (missed ∷ es) = suc (try_pop_returns es)
  try_pop_returns (_ ∷ es) = try_pop_returns es

  abbrev pub pop_done : PopPc A → ℕ
  pop_done waiting = 0
  pop_done (seen r) = 1
  pop_done (copying r dst) = 2 + length dst

  module _ (width : ℕ) (msg : ℕ → ℕ → A) where
    -- A turn is paid for by a step of the call or by its return.
    abbrev pub PushPaid : PushPc → Shared A × PushPc × Event A → Type 0
    PushPaid pc (m', pc', e) =
        (suc (push_done pc) ≤ push_done pc' + (width + 3) * try_push_returns (e ∷ []))
        × (try_pop_returns (e ∷ []) ≡ 0)

    pub push_step-PushPaid :
        (val : ℕ → A) (m : Shared A) (n p : ℕ) (pc : PushPc)
        → PushFacts width msg m n p pc
        → PushPaid pc (push_step width val m pc)
    unfolding push_step
    push_step-PushPaid val m n p ready f = (omega arith, refl)
    push_step-PushPaid val m n p (loaded w) f = elim (Bool-cases (is_full w m.reader)) [
      | inl full ↦ rw full (omega arith, refl)
      | inr free ↦ rw free (omega arith, refl)
    ]
    push_step-PushPaid val m n p (storing w k) f = elim (dec_lt k width) [
      | yes more ↦ rw (lt→ltb k width more) (omega arith, refl)
      | no over ↦ rw (le→ltb k width (omega arith)) (omega (arith, f.2), refl)
    ]

    abbrev pub PopPaid : PopPc A → Shared A × PopPc A × Event A → Type 0
    PopPaid qc (m', qc', e) =
        (suc (pop_done qc) ≤ pop_done qc' + (width + 3) * try_pop_returns (e ∷ []))
        × (try_push_returns (e ∷ []) ≡ 0)

    pub pop_step-PopPaid :
        (m : Shared A) (n p : ℕ) (qc : PopPc A)
        → PopFacts width msg n p qc
        → PopPaid qc (pop_step width m qc)
    unfolding pop_step
    pop_step-PopPaid m n p waiting f = (omega arith, refl)
    pop_step-PopPaid m n p (seen r) f = elim (Bool-cases (r == m.writer)) [
      | inl none_left ↦ rw none_left (omega arith, refl)
      | inr more ↦ rw more (omega arith, refl)
    ]
    pop_step-PopPaid m n p (copying r dst) f = elim (dec_lt (length dst) width) [
      | yes more ↦
          rw (lt→ltb (length dst) width more)
            (omega (arith, length-append dst (m.buffer (wrap r) (length dst) ∷ [])), refl)
      | no over ↦ rw (le→ltb (length dst) width (omega arith)) (omega (arith, f.2), refl)
    ]

    try_push_returns-cons :
        (e : Event A) (es : List (Event A))
        → try_push_returns (e ∷ es) ≡ try_push_returns (e ∷ []) + try_push_returns es
    try_push_returns-cons silent es = omega arith
    try_push_returns-cons (pushed x) es = omega arith
    try_push_returns-cons refused es = omega arith
    try_push_returns-cons (popped x) es = omega arith
    try_push_returns-cons missed es = omega arith

    try_pop_returns-cons :
        (e : Event A) (es : List (Event A))
        → try_pop_returns (e ∷ es) ≡ try_pop_returns (e ∷ []) + try_pop_returns es
    try_pop_returns-cons silent es = omega arith
    try_pop_returns-cons (pushed x) es = omega arith
    try_pop_returns-cons refused es = omega arith
    try_pop_returns-cons (popped x) es = omega arith
    try_pop_returns-cons missed es = omega arith

    -- All turns of a schedule are paid for.
    abbrev Paid : List Turn → System A → System A × List (Event A) → Type 0
    Paid ts s (s', es) =
        (producer_turns ts + push_done s.pusher
          ≤ push_done s'.pusher + (width + 3) * try_push_returns es)
        × (consumer_turns ts + pop_done s.popper
            ≤ pop_done s'.popper + (width + 3) * try_pop_returns es)

    turn-Paid :
        (t : Turn) {s : System A}
        → HoldsAll width msg s
        → let (s', e) = turn width msg t s in Paid (t ∷ []) s (s', e ∷ [])
    unfolding turn
    turn-Paid producer {s} inv =
        let paid = push_step-PushPaid (msg s.pushes) s.mem s.pushes s.pops s.pusher inv.pushing in
        (omega (arith, paid.0), omega (arith, paid.1))
    turn-Paid consumer {s} inv =
        let paid = pop_step-PopPaid s.mem s.pushes s.pops s.popper inv.popping in
        (omega (arith, paid.1), omega (arith, paid.0))

    run-Paid :
        (ts : List Turn) {s : System A} → HoldsAll width msg s → Paid ts s (run width msg ts s)
    unfolding run
    run-Paid [] inv = (omega arith, omega arith)
    run-Paid (t ∷ ts) {s} inv =
        let (s₁, e) = turn width msg t s in
        let rest = run-Paid ts {s = s₁} (turn-Goes width msg t inv).0 in
        let es = (run width msg ts s₁).1 in
        let here = turn-Paid t inv in
        (
          omega (
            arith,
            here.0,
            rest.0,
            turns t,
            mul_split (width + 3) (try_push_returns (e ∷ [])) (try_push_returns es)
                (try_push_returns (e ∷ es)) (try_push_returns-cons e es),
          ),
          omega (
            arith,
            here.1,
            rest.1,
            turns t,
            mul_split (width + 3) (try_pop_returns (e ∷ [])) (try_pop_returns es)
                (try_pop_returns (e ∷ es)) (try_pop_returns-cons e es),
          ),
        )
      where
        turns :
            (t : Turn)
            → (producer_turns (t ∷ ts) ≡ producer_turns (t ∷ []) + producer_turns ts)
              × (consumer_turns (t ∷ ts) ≡ consumer_turns (t ∷ []) + consumer_turns ts)
        turns producer = (omega arith, omega arith)
        turns consumer = (omega arith, omega arith)

    pub push_done-lt :
        (m : Shared A) (n p : ℕ) (pc : PushPc)
        → PushFacts width msg m n p pc
        → push_done pc < width + 3
    push_done-lt m n p ready f = omega arith
    push_done-lt m n p (loaded w) f = omega arith
    push_done-lt m n p (storing w k) f = omega (arith, f.2)

    pub pop_done-lt : (n p : ℕ) (qc : PopPc A) → PopFacts width msg n p qc → pop_done qc < width + 3
    pop_done-lt n p waiting f = omega arith
    pop_done-lt n p (seen r) f = omega arith
    pop_done-lt n p (copying r dst) f = omega (arith, f.2)

    -- After any schedule from an empty queue, each thread has had a call return for every
    -- `width + 3` turns of its own, whatever the other thread did.
    pub calls_return :
        (blank : ℕ → ℕ → A) (ts : List Turn)
        → let es = (run width msg ts (init blank)).1 in
          (producer_turns ts < (width + 3) * (try_push_returns es + 1))
          × (consumer_turns ts < (width + 3) * (try_pop_returns es + 1))
    calls_return blank ts =
        let (s, es) = run width msg ts (init blank) in
        let start = init-HoldsAll width msg blank in
        let inv = (run-HoldsAll width msg ts start).0 in
        let paid = run-Paid ts start in
        (
          omega (arith, paid.0, push_done-lt s.mem s.pushes s.pops s.pusher inv.pushing),
          omega (arith, paid.1, pop_done-lt s.pushes s.pops s.popper inv.popping),
        )
