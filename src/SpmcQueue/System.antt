-- ===== src/SpmcQueue/System.antt =====
-- One producer and any number of consumers over one `SPMCQueue`, interleaved by a schedule.
use lock_free_queues.Prelude.{ℕ, ◌+◌, List, [], ◌∷◌, update}
use lock_free_queues.SpmcQueue.{
  Shared, PushPc, ready, stored, making, Consumer, push_step, pop_step,
}

-- `pushed` counts the finished calls of `push`.
pub record System (A : Type 0) : Type 0 where
  pub mem : Shared A
  pub pc : PushPc
  pub pushed : ℕ
  pub consumers : ℕ → Consumer A

-- Whose turn it is.
pub data Turn : Type 0 where
  produce : Turn
  consume : (c : ℕ) → Turn

abbrev pub count_push : PushPc → ℕ → ℕ
count_push (stored w) n = n + 1
count_push _ n = n

-- The n-th call of `push` has the argument `msg n`; `blank` is what the slots hold at first.
module _ (bits width : ℕ) {A : Type 0} (msg : ℕ → ℕ → A) where
  unfoldable pub turn : Turn → System A → System A
  turn produce s =
      let (m, p) = push_step bits width (msg s.pushed) s.mem s.pc in
      record s { mem = m; pc = p; pushed = count_push s.pc s.pushed }
  turn (consume c) s =
      let k = s.consumers c in
      record s { consumers = update s.consumers c (pop_step bits width s.mem k k.pc) }

  unfoldable pub run : List Turn → System A → System A
  unfolding turn
  run [] s = s
  run (t ∷ ts) s = run ts (turn t s)

abbrev pub newcomer : (A : Type 0) → Consumer A
newcomer A = record { reader = 0; pc = making; start = 0; got = []; misses = 0 }

unfoldable pub init : {A : Type 0} → (ℕ → ℕ → A) → System A
init {A} blank = record {
  mem = record { writer = 0; version = λ _. 0; cells = blank };
  pc = ready;
  pushed = 0;
  consumers = λ _. newcomer A;
}
