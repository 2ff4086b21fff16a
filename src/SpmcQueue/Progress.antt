-- ===== src/SpmcQueue/Progress.antt =====
-- What the turns of the producer of an `SPMCQueue` come to.
use lock_free_queues.Prelude.{
  ℕ, suc, ◌+◌, ◌*◌, ◌/◌, ◌<◌, ◌≡◌, refl, List, [], ◌∷◌, arith, length, dec_lt, lt→ltb, le→ltb,
}
use lock_free_queues.SpmcQueue.{
  Shared, PushPc, ready, loaded, versioned, writing, stored, push_step,
}
use lock_free_queues.SpmcQueue.System.{System, Turn, produce, consume, count_push, turn, run, init}
use lock_free_queues.SpmcQueue.Laps.{quotient_unique}
use lock_free_queues.SpmcQueue.Invariant.{bound, PushInv}
use lock_free_queues.SpmcQueue.Delivery.{Inv, turn-Inv, init-Inv, run-Inv}

-- The producer's turns in a schedule.
abbrev pub produced : List Turn → ℕ
produced [] = 0
produced (produce ∷ ts) = suc (produced ts)
produced (consume c ∷ ts) = produced ts

module _ (bits width : ℕ) {A : Type 0} (msg : ℕ → ℕ → A) where
  -- The accesses of the present call of `push` that are done, of `width + 5`.
  abbrev done : PushPc → ℕ
  done ready = 0
  done (loaded w) = 1
  done (versioned w v) = 2
  done (writing w v k) = k + 3
  done (stored w) = width + 4

  abbrev work : System A → ℕ
  work s = s.pushed * (width + 5) + done s.pc

  push_step-work :
      {n : ℕ} {mem : Shared A} (pc : PushPc)
      → PushInv bits width msg n mem pc
      → count_push pc n * (width + 5) + done (push_step bits width (msg n) mem pc).1
        ≡ n * (width + 5) + done pc + 1
  unfolding push_step
  push_step-work ready inv = omega arith
  push_step-work (loaded w) inv = omega arith
  push_step-work (versioned w v) inv = omega arith
  push_step-work (writing w v k) inv = elim (dec_lt k width) [
    | yes lt ↦ rw (lt→ltb k width lt) (omega arith)
    | no ge ↦ rw (le→ltb k width (omega arith)) (omega (arith, inv.facts.3))
  ]
  push_step-work (stored w) inv = omega arith

  work-turn :
      (s : System A)
      → PushInv bits width msg s.pushed s.mem s.pc
      → work (turn bits width msg produce s) ≡ work s + 1
  unfolding turn
  work-turn s inv = push_step-work s.pc inv

  idle_work : (c : ℕ) (s : System A) → work (turn bits width msg (consume c) s) ≡ work s
  unfolding turn
  idle_work c s = refl

  run-work :
      (ts : List Turn) {s : System A}
      → Inv bits width msg (length ts) s
      → work (run bits width msg ts s) ≡ work s + produced ts
  unfolding run
  run-work [] inv = omega arith
  run-work (produce ∷ ts) {s} inv =
      omega (arith, run-work ts (turn-Inv bits width msg produce inv), work-turn s inv.pushing)
  run-work (consume c ∷ ts) {s} inv =
      omega (arith, run-work ts (turn-Inv bits width msg (consume c) inv), idle_work c s)

  done-lt :
      (pc : PushPc) {n : ℕ} {mem : Shared A} → PushInv bits width msg n mem pc → done pc < width + 5
  done-lt ready inv = omega arith
  done-lt (loaded w) inv = omega arith
  done-lt (versioned w v) inv = omega arith
  done-lt (writing w v k) inv = omega (arith, inv.facts.3)
  done-lt (stored w) inv = omega arith

  -- After any schedule of fewer than 2^62 steps from an empty queue, the producer has finished one
  -- `push` for every `width + 5` turns of its own, whatever the consumers did: it never waits.
  pub producer_wait_free :
      (blank : ℕ → ℕ → A) (ts : List Turn)
      → length ts < bound
      → (run bits width msg ts (init blank)).pushed ≡ produced ts / (width + 5)
  unfolding init
  producer_wait_free blank ts lt =
      quotient_unique final.pushed (width + 5) (done final.pc) (produced ts)
        (done-lt final.pc (run-Inv bits width msg ts {left = 0} (fresh 0 refl)).pushing)
        (omega (arith, run-work ts (init-Inv bits width msg (length ts) blank lt)))
    where
      final : System A
      final = run bits width msg ts (init blank)

      fresh : (left : ℕ) → left ≡ 0 → Inv bits width msg (length ts + left) (init blank)
      fresh left e = init-Inv bits width msg (length ts + left) blank (omega arith)
