-- ===== src/Bench/SpscThreads/Meter.antt =====
-- A number for how far each of the two threads of `spsc_bench` has come.
use mathlib.Core.Bool.{true≢false}
use lock_free_queues.Prelude.{
  lt→ltb, ℕ, zero, suc, ◌+◌, ◌-◌, ◌*◌, ◌≤◌, ◌<◌, ◌≡◌, ◌⊎◌, inl, inr, refl, sym, ap, ◌∙◌, arith, [],
  ◌∷◌, ltb,
}
use lock_free_queues.Memory.Messages.{length-objects}
use lock_free_queues.SpscQueue.Contents.{capacity}
use lock_free_queues.SpscQueue.Threads.{
  Event, silent, pushed, refused, popped, missed, System, producer, consumer, turn, count,
}
use lock_free_queues.SpscQueue.Threads.Spec.{Does}
use lock_free_queues.SpscQueue.Threads.Invariant.{held, HoldsAll}
use lock_free_queues.SpscQueue.Threads.Progress.{
  push_done, pop_done, push_step-PushPaid, pop_step-PopPaid, try_push_returns, try_pop_returns,
}
use lock_free_queues.Bench.SpscThreads.{
  ProducerPc, sending, joining, through, ConsumerPc, looping, popping, tried, leaving, threw,
  exported, Bench,
}
use lock_free_queues.Bench.SpscThreads.Turns.{push_turn, OfPush}

-- `x` if the gate is open, that is positive.
abbrev pub gate : ℕ → ℕ → ℕ
gate zero x = 0
gate (suc k) x = x

pub gate-open : (k x : ℕ) → 0 < k → gate k x ≡ x
gate-open zero x pos = absurd (omega arith)
gate-open (suc k) x pos = refl

pub gate-le : (k x : ℕ) → gate k x ≤ x
gate-le zero x = omega arith
gate-le (suc k) x = omega arith

-- A gate opens, and what is behind it has grown if it was open.
pub gate_mono : (k k' x y : ℕ) → k ≤ k' → (0 < k → x ≤ y) → gate k x ≤ gate k' y
gate_mono zero k' x y le up = omega arith
gate_mono (suc k) zero x y le up = absurd (omega arith)
gate_mono (suc k) (suc k') x y le up = up (omega arith)

module _ (width : ℕ) where
  abbrev pub main_local : ProducerPc → ℕ → ℕ → ℕ
  main_local sending room d = gate room d
  main_local joining room d = width + 4
  main_local through room d = width + 5

  abbrev pub consumer_local : ConsumerPc → ℕ → ℕ
  consumer_local looping d = 1
  consumer_local popping d = 2 + d
  consumer_local (tried read) d = 0
  consumer_local leaving d = width + 5
  consumer_local threw d = width + 6
  consumer_local exported d = width + 6

-- The room in the queue, and whether there is an object, or none to come.
abbrev pub room : {A : Type 0} → System A → ℕ
room q = q.pops + capacity - q.pushes

abbrev pub some_left : {A : Type 0} → ℕ → System A → ℕ
some_left n q = q.pushes - q.pops + (1 + q.pops - n)

-- What a turn in `try_push` does to the queue `q`: an object goes in, or the call goes on, unless the
-- queue is full.
abbrev pub PushMoves : {A : Type 0} → System A → System A → Type 0
PushMoves q q' =
    (q'.pops ≡ q.pops)
    × (q'.popper ≡ q.popper)
    × ((q'.pushes ≡ suc q.pushes)
        ⊎ ((q'.pushes ≡ q.pushes) × (0 < room q → suc (push_done q.pusher) ≤ push_done q'.pusher)))

module _ (width : ℕ) {A : Type 0} where
  abbrev pub main_meter : Bench A → ℕ
  main_meter s =
      (width + 3) * s.queue.pushes
      + main_local width s.main_pc (room s.queue) (push_done s.queue.pusher)

  abbrev pub consumer_meter : ℕ → Bench A → ℕ
  consumer_meter n s =
      (width + 7) * s.queue.pops
      + gate (some_left n s.queue) (consumer_local width s.pc (pop_done s.queue.popper))

module _ (width : ℕ) {A : Type 0} (changes : ℕ → ℕ → A) where
  push_paid :
      {q : System A}
      → HoldsAll width changes q
      → let (q', e) = turn width changes producer q in
        (suc (push_done q.pusher) ≤ push_done q'.pusher + (width + 3) * try_push_returns (e ∷ []))
        × (q'.popper ≡ q.popper)
  unfolding turn
  push_paid {q} inv = (
    (push_step-PushPaid width changes (changes q.pushes) q.mem q.pushes q.pops q.pusher
        inv.pushing).0,
    refl,
  )

  event_moves :
      (q q' : System A) (e : Event A)
      → OfPush e
      → Does capacity (held width changes q.pushes q.pops) e (held width changes q'.pushes q'.pops)
      → q'.pushes ≡ count e q.pushes
      → q'.pops ≡ q.pops
      → (suc (push_done q.pusher) ≤ push_done q'.pusher + (width + 3) * try_push_returns (e ∷ []))
      → q'.popper ≡ q.popper
      → PushMoves q q'
  event_moves q q' silent of does pushes pops paid same =
      (pops, same, inr (pushes, λ open'. omega (arith, paid)))
  event_moves q q' (pushed x) of does pushes pops paid same =
      (pops, same, inl (omega (arith, pushes)))
  event_moves q q' refused of does pushes pops paid same =
      (pops, same, inr (pushes, λ open'. absurd (full open')))
    where
      full : 0 < room q → ⊥
      full open' = true≢false (
          sym (lt→ltb (q.pushes - q.pops) capacity (omega arith))
          ∙ ap (λ k. ltb k capacity) (sym (length-objects width changes q.pops (q.pushes - q.pops)))
          ∙ does.0)
  event_moves q q' (popped x) of does pushes pops paid same = absurd of
  event_moves q q' missed of does pushes pops paid same = absurd of

  pub push_turn-PushMoves :
      {q : System A} → HoldsAll width changes q → PushMoves q (turn width changes producer q).0
  push_turn-PushMoves {q} inv =
      let (inv', of, does, pushes, pops) = push_turn width changes inv in
      let (paid, same) = push_paid inv in
      let (q', e) = turn width changes producer q in
      event_moves q q' e of does pushes pops paid same

  -- And in `try_pop`.
  pub pop_paid :
      {q : System A}
      → HoldsAll width changes q
      → let (q', e) = turn width changes consumer q in
        (suc (pop_done q.popper) ≤ pop_done q'.popper + (width + 3) * try_pop_returns (e ∷ []))
        × (q'.pusher ≡ q.pusher)
  unfolding turn
  pop_paid {q} inv =
      ((pop_step-PopPaid width changes q.mem q.pushes q.pops q.popper inv.popping).0, refl)
