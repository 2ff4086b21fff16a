-- ===== src/SpscQueue/Threads.antt =====
-- `try_push` and `try_pop` of include/spsc_queue.hpp in two threads, one shared access at a time,
-- for a trivially copyable type: its objects are copied word by word.
pub mod Spec
pub mod Invariant
pub mod Push
pub mod Pop
pub mod Linear
pub mod Progress
mod Tests
use lock_free_queues.Prelude.{ℕ, ◌+◌, List, [], ◌∷◌, ◌++◌, ltb, ◌==◌, if◌then◌else◌, update, length}
use lock_free_queues.Prelude.Words.{add64}
use lock_free_queues.Memory.Copy.{read_cells}
use lock_free_queues.SpscQueue.{wrap, is_full}

-- `buffer_`, with the words of each slot, and the two atomics.
pub record Shared (A : Type 0) : Type 0 where
  pub buffer : ℕ → ℕ → A
  pub reader : ℕ
  pub writer : ℕ

-- Where the producer stands in `try_push`, with the local variables that are live there.
pub data PushPc : Type 0 where
  ready : PushPc
  loaded : (w : ℕ) → PushPc
  storing : (w word : ℕ) → PushPc

-- Where the consumer stands in `try_pop`; `dst` holds the words copied so far.
pub data PopPc (A : Type 0) : Type 0 where
  waiting : PopPc A
  seen : (r : ℕ) → PopPc A
  copying : (r : ℕ) (dst : List A) → PopPc A

-- What a step shows to the callers: nothing, or how a call returned.
pub data Event (A : Type 0) : Type 0 where
  silent : Event A
  pushed : (object : List A) → Event A
  refused : Event A
  popped : (object : List A) → Event A
  missed : Event A

-- `width` is the number of words of a `T`.
module _ (width : ℕ) {A : Type 0} where
  abbrev pub store_word : Shared A → ℕ → ℕ → A → Shared A
  store_word m i k x = record m { buffer = update m.buffer i (update (m.buffer i) k x) }

  -- `try_push(val)`
  unfoldable pub push_step : (ℕ → A) → Shared A → PushPc → Shared A × PushPc × Event A
  push_step val m ready = (m, loaded m.writer, silent)
  push_step val m (loaded w) =
      if is_full w m.reader then (m, ready, refused) else (m, storing w 0, silent)
  push_step val m (storing w k) =
      if ltb k width
      then (store_word m (wrap w) k (val k), storing w (k + 1), silent)
      else (record m { writer = add64 w 1 }, ready, pushed (read_cells val 0 width))

  -- `try_pop(dst)`
  unfoldable pub pop_step : Shared A → PopPc A → Shared A × PopPc A × Event A
  pop_step m waiting = (m, seen m.reader, silent)
  pop_step m (seen r) = if r == m.writer then (m, waiting, missed) else (m, copying r [], silent)
  pop_step m (copying r dst) =
      if ltb (length dst) width
      then (m, copying r (dst ++ (m.buffer (wrap r) (length dst) ∷ [])), silent)
      else (record m { reader = add64 r 1 }, waiting, popped dst)

-- The two threads, and how many calls of each have returned true.
pub record System (A : Type 0) : Type 0 where
  pub mem : Shared A
  pub pusher : PushPc
  pub popper : PopPc A
  pub pushes : ℕ
  pub pops : ℕ

pub data Turn : Type 0 where
  producer consumer : Turn

abbrev pub count : {A : Type 0} → Event A → ℕ → ℕ
count (pushed object) n = n + 1
count (popped object) n = n + 1
count _ n = n

-- The n-th object that the producer gets in is `msg n`: a refused call does not look at its own.
module _ (width : ℕ) {A : Type 0} (msg : ℕ → ℕ → A) where
  unfoldable pub turn : Turn → System A → System A × Event A
  turn producer s =
      let (m, pc, e) = push_step width (msg s.pushes) s.mem s.pusher in
      (record s { mem = m; pusher = pc; pushes = count e s.pushes }, e)
  turn consumer s =
      let (m, pc, e) = pop_step width s.mem s.popper in
      (record s { mem = m; popper = pc; pops = count e s.pops }, e)

  -- The system after a schedule, and what the callers saw.
  unfoldable pub run : List Turn → System A → System A × List (Event A)
  unfolding turn
  run [] s = (s, [])
  run (t ∷ ts) s = let (s₁, e) = turn t s in let (s₂, es) = run ts s₁ in (s₂, e ∷ es)

-- `blank` is what the slots hold at first.
unfoldable pub init : {A : Type 0} → (ℕ → ℕ → A) → System A
init blank = record {
  mem = record { buffer = blank; reader = 0; writer = 0 };
  pusher = ready;
  popper = waiting;
  pushes = 0;
  pops = 0;
}
