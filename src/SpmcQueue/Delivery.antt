-- ===== src/SpmcQueue/Delivery.antt =====
-- What any schedule of producer and consumers does: the invariant of the whole system, and what
-- follows for the consumers.
use lock_free_queues.Prelude.{
  ℕ, suc, ◌+◌, ◌-◌, ◌^◌, ◌≤◌, ◌<◌, ◌≡◌, refl, sym, List, [], ◌∷◌, arith, length, ℕ_discrete,
  update_self, update_ne, subst,
}
use lock_free_queues.Memory.Messages.{objects}
use lock_free_queues.SpmcQueue.{PushPc, ready, stored, aborted, Consumer, pop_step}
use lock_free_queues.SpmcQueue.System.{System, Turn, produce, consume, count_push, turn, run, init}
use lock_free_queues.SpmcQueue.Invariant.{bound, published, PushInv, PopFacts, PopInv}
use lock_free_queues.SpmcQueue.Push.{push_step-PushInv, push_step_mono}
use lock_free_queues.SpmcQueue.Pop.{pop_step-PopInv, PopInv-mono}

count_push-le : (pc : PushPc) (n : ℕ) → count_push pc n ≤ n + 1
count_push-le ready n = omega arith
count_push-le (stored w) n = omega arith
count_push-le pc n = omega arith

module _ (bits width : ℕ) {A : Type 0} (msg : ℕ → ℕ → A) where
  -- With `left` turns still to come.
  pub record Inv (left : ℕ) (s : System A) : Type 0 where
    pub room : s.pushed + left < bound
    pub pushing : PushInv bits width msg s.pushed s.mem s.pc
    pub popping : (c : ℕ) → PopInv bits width msg (published s.pc s.pushed) s.mem (s.consumers c)

  pub init-Inv : (left : ℕ) (blank : ℕ → ℕ → A) → left < bound → Inv left (init blank)
  unfolding init
  init-Inv left blank lt = record {
    room = omega arith;
    pushing = record {
      small = omega arith;
      counted = refl;
      facts = tt;
      slots = λ j below _. record {
        lap = 0;
        even = refl;
        reached = omega arith;
        current = omega arith;
        words = λ k prev _ e. absurd (omega arith);
      };
    };
    popping =
        λ c. record { after = omega arith; behind = omega arith; in_order = refl; facts = tt };
  }

  pub turn-Inv :
      (t : Turn) {left : ℕ} {s : System A} → Inv (suc left) s → Inv left (turn bits width msg t s)
  unfolding turn
  turn-Inv produce {left} {s} inv = record {
    room = omega (arith, count_push-le s.pc s.pushed, inv.room);
    pushing = push_step-PushInv bits width msg s.pc (omega (arith, inv.room)) inv.pushing;
    popping = λ c.
        let grown = push_step_mono bits width msg s.pc (omega (arith, inv.room)) inv.pushing in
        PopInv-mono bits width msg grown.1 grown.0 (inv.popping c);
  }
  turn-Inv (consume c) {left} {s} inv = record {
    room = omega (arith, inv.room);
    pushing = inv.pushing;
    popping = λ d. elim (ℕ_discrete c d) [
      | yes e ↦
          subst (PopInv bits width msg (published s.pc s.pushed) s.mem)
            (sym (update_self s.consumers c after e))
            (pop_step-PopInv bits width msg s.pc inv.pushing (s.consumers c) (inv.popping c)
              (s.consumers c).pc (omega (arith, inv.room)) (inv.popping c).facts)
      | no ne ↦
          subst (PopInv bits width msg (published s.pc s.pushed) s.mem)
            (sym (update_ne s.consumers c after ne)) (inv.popping d)
    ];
  }
    where
      after : Consumer A
      after = pop_step bits width s.mem (s.consumers c) (s.consumers c).pc

  pub run-Inv :
      (ts : List Turn) {left : ℕ} {s : System A}
      → Inv (length ts + left) s
      → Inv left (run bits width msg ts s)
  unfolding run
  run-Inv [] {left} {s} inv = subst (λ k. Inv k s) (omega arith) inv
  run-Inv (t ∷ ts) {left} {s} inv = run-Inv ts (turn-Inv t (subst (λ k. Inv k s) (omega arith) inv))

  module _ (blank : ℕ → ℕ → A) (ts : List Turn) (c : ℕ) where
    abbrev pub reached : System A
    reached = run bits width msg ts (init blank)

    abbrev pub consumer : Consumer A
    consumer = reached.consumers c

    pub reached-Inv : (left : ℕ) → length ts + left < bound → Inv left reached
    reached-Inv left lt = run-Inv ts (init-Inv (length ts + left) blank lt)

    -- After any schedule of fewer than 2^62 steps from an empty queue, every consumer has received
    -- the objects pushed from its start up to its `reader`: each once, in order, none torn by a
    -- push that went on meanwhile, and none before it was published.
    pub delivers_in_order :
        length ts < bound
        → (consumer.got ≡ objects width msg consumer.start (consumer.reader - consumer.start))
          × (consumer.start ≤ consumer.reader)
          × (consumer.reader ≤ published reached.pc reached.pushed)
    delivers_in_order lt =
        let k = (reached-Inv 0 (omega arith)).popping c in (k.in_order, k.after, k.behind)

    -- After any schedule of fewer than 2^62 steps from an empty queue, a consumer that has aborted
    -- had the producer a whole lap or more ahead of it.
    pub aborts_only_if_lapped :
        length ts < bound
        → consumer.pc ≡ aborted
        → consumer.reader + 2 ^ bits ≤ published reached.pc reached.pushed
    aborts_only_if_lapped lt e =
        subst
          (PopFacts bits width msg (published reached.pc reached.pushed) consumer.reader
            reached.mem)
          e ((reached-Inv 0 (omega arith)).popping c).facts
