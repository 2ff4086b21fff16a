-- ===== src/Bench/SpscThreads/Turns.antt =====
-- What a turn in `try_push` or `try_pop` shows a thread of `spsc_bench`.
use lock_free_queues.Prelude.{
  ℕ, zero, suc, ◌-◌, ◌≤◌, ◌<◌, ◌≡◌, inl, inr, refl, arith, List, [], ◌∷◌, ltb, Bool-cases, ◌==◌,
  length,
}
use lock_free_queues.Memory.Copy.{read_cells}
use lock_free_queues.Memory.Messages.{objects}
use lock_free_queues.SpscQueue.{is_full}
use lock_free_queues.SpscQueue.Contents.{capacity}
use lock_free_queues.SpscQueue.Threads.{
  Shared, PushPc, ready, loaded, storing, PopPc, waiting, seen, copying, Event, silent, pushed,
  refused, popped, missed, System, producer, consumer, push_step, pop_step, turn, count,
}
use lock_free_queues.SpscQueue.Threads.Spec.{Does}
use lock_free_queues.SpscQueue.Threads.Invariant.{held, HoldsAll}
use lock_free_queues.SpscQueue.Threads.Push.{push_step-Goes}
use lock_free_queues.SpscQueue.Threads.Pop.{pop_step-Goes}

-- The events of the one call and of the other.
abbrev pub OfPush : {A : Type 0} → Event A → Type 0
OfPush (popped x) = ⊥
OfPush missed = ⊥
OfPush _ = Unit

abbrev pub OfPop : {A : Type 0} → Event A → Type 0
OfPop (pushed x) = ⊥
OfPop refused = ⊥
OfPop _ = Unit

module _ (width : ℕ) {A : Type 0} where
  push_step-OfPush :
      (val : ℕ → A) (m : Shared A) (pc : PushPc) → OfPush (push_step width val m pc).2
  unfolding push_step
  push_step-OfPush val m ready = tt
  push_step-OfPush val m (loaded w) = elim (Bool-cases (is_full w m.reader)) [
    | inl full ↦ rw full tt
    | inr free ↦ rw free tt
  ]
  push_step-OfPush val m (storing w k) = elim (Bool-cases (ltb k width)) [
    | inl more ↦ rw more tt
    | inr over ↦ rw over tt
  ]

  pop_step-OfPop : (m : Shared A) (pc : PopPc A) → OfPop (pop_step width m pc).2
  unfolding pop_step
  pop_step-OfPop m waiting = tt
  pop_step-OfPop m (seen r) = elim (Bool-cases (r == m.writer)) [
    | inl none_left ↦ rw none_left tt
    | inr more ↦ rw more tt
  ]
  pop_step-OfPop m (copying r dst) = elim (Bool-cases (ltb (length dst) width)) [
    | inl more ↦ rw more tt
    | inr over ↦ rw over tt
  ]

module _ (width : ℕ) {A : Type 0} (changes : ℕ → ℕ → A) where
  objects-cons :
      (from k : ℕ) (x : List A) (xs : List (List A))
      → objects width changes from k ≡ x ∷ xs
      → (0 < k) × (x ≡ read_cells (changes from) 0 width)
  objects-cons from zero x xs e = absurd (cc)
  objects-cons from (suc k) x xs e = (omega arith, cc)

  objects-nil : (from k : ℕ) → objects width changes from k ≡ [] → k ≡ 0
  objects-nil from zero e = refl
  objects-nil from (suc k) e = absurd (cc)

  -- What a step of `try_pop` shows of the messages.
  abbrev pub Shows : ℕ → ℕ → Event A → Type 0
  Shows n p (popped x) = (p < n) × (x ≡ read_cells (changes p) 0 width)
  Shows n p missed = n ≤ p
  Shows n p silent = Unit
  Shows n p (pushed x) = ⊥
  Shows n p refused = ⊥

  event_lem :
      (n p : ℕ) (e : Event A)
      → OfPop e
      → Does capacity (held width changes n p) e (held width changes n (count e p))
      → Shows n p e
  event_lem n p silent of does = tt
  event_lem n p (pushed x) of does = of
  event_lem n p refused of does = of
  event_lem n p (popped x) of does =
      let found = objects-cons p (n - p) x _ does in (omega (arith, found.0), found.1)
  event_lem n p missed of does = omega (arith, objects-nil p (n - p) does.0)

  -- A turn of the consumer in `try_pop`.
  pub pop_turn :
      {s : System A}
      → HoldsAll width changes s
      → let (s', e) = turn width changes consumer s in
        HoldsAll width changes s'
        × Shows s.pushes s.pops e
        × (s'.pops ≡ count e s.pops)
        × (s'.pushes ≡ s.pushes)
  unfolding turn
  pop_turn {s} inv =
      let goes = pop_step-Goes width changes s.popper inv in
      (goes.0, event_lem s.pushes s.pops _ (pop_step-OfPop width s.mem s.popper) goes.1, refl, refl)

  -- And one of the producer in `try_push`.
  pub push_turn :
      {s : System A}
      → HoldsAll width changes s
      → let (s', e) = turn width changes producer s in
        HoldsAll width changes s'
        × OfPush e
        × Does capacity
            (held width changes s.pushes s.pops)
            e
            (held width changes s'.pushes s'.pops)
        × (s'.pushes ≡ count e s.pushes)
        × (s'.pops ≡ s.pops)
  unfolding turn
  push_turn {s} inv =
      let goes = push_step-Goes width changes s.pusher inv in
      (goes.0, push_step-OfPush width (changes s.pushes) s.mem s.pusher, goes.1, refl, refl)
