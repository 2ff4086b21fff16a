-- ===== src/Bench/BurstThreads/Advance.antt =====
-- One shared access of `pop` or `push`, as a thread of the burst benchmark sees it.
use mathlib.Core.Bool.{true≢false}
use lock_free_queues.Prelude.{
  ℕ, zero, suc, [], ◌+◌, ◌≤◌, ◌<◌, ◌≡◌, ◌≢◌, refl, sym, subst, arith, ltb, Bool-cases, inl, inr,
  ℕ_discrete, update, update_self, update_ne, Bool, true, false, ◌&&◌, leb, dec_le, lt→leb, ◌∙◌,
  List, length, ◌==◌,
}
use lock_free_queues.SpmcQueue.{
  Shared, PushPc, ready, loaded, versioned, writing, stored, PopPc, making, waiting, copying,
  aborted, Consumer, push_step, pop_step, check, recheck, expected_version, wrap,
}
use lock_free_queues.SpmcQueue.System.{count_push}
use lock_free_queues.SpmcQueue.Invariant.{bound, published}
use lock_free_queues.Bench.BurstThreads.{Place, arrivals, consumers_arrived}

-- The consumer after the access has made a step at most, and it is not made again.
pub record Advances {A : Type 0} (c c' : Consumer A) : Type 0 where
  pub start : c'.start ≡ c.start
  pub forth : c.reader ≤ c'.reader
  pub at_most : c'.reader ≤ c.reader + 1
  pub made : c'.pc ≢ making

module _ (bits width : ℕ) {A : Type 0} where
  stays : (c : Consumer A) (p : PopPc A) → p ≢ making → Advances c (record c { pc = p })
  stays c p ne = record { start = refl; forth = omega arith; at_most = omega arith; made = ne }

  check-Advances : (c : Consumer A) (v : ℕ) → c.pc ≢ making → Advances c (check bits width c v)
  unfolding check
  check-Advances c v ne = elim (Bool-cases (ltb (expected_version bits c.reader) v)) [
    | inl late ↦ rw late (stays c aborted (λ e. cc))
    | inr fine ↦ elim (Bool-cases (ltb v (expected_version bits c.reader))) [
      | inl early ↦
          rw (fine, early)
            (record { start = refl; forth = omega arith; at_most = omega arith; made = ne })
      | inr there ↦ rw (fine, there) (stays c (copying []) (λ e. cc))
    ]
  ]

  recheck-Advances :
      (c : Consumer A) (temp : List A) (v : ℕ)
      → c.reader < bound
      → Advances c (recheck bits width c temp v)
  unfolding recheck
  recheck-Advances c temp v small = elim (Bool-cases (v == expected_version bits c.reader)) [
    | inl same ↦
        rw same
          (record { start = refl; forth = omega arith; at_most = omega arith; made = λ e. cc })
    | inr changed ↦ rw changed (stays c aborted (λ e. cc))
  ]

  pub pop_step-Advances :
      (mem : Shared A) (c : Consumer A) (p : PopPc A)
      → c.pc ≡ p
      → c.pc ≢ making
      → c.reader < bound
      → Advances c (pop_step bits width mem c p)
  unfolding pop_step
  pop_step-Advances mem c making e ne small = absurd (ne e)
  pop_step-Advances mem c waiting e ne small =
      check-Advances c (mem.version (wrap bits c.reader)) ne
  pop_step-Advances mem c (copying temp) e ne small = elim (Bool-cases (ltb (length temp) width)) [
    | inl more ↦ rw more (stays c _ (λ e. cc))
    | inr full ↦ rw full (recheck-Advances c temp (mem.version (wrap bits c.reader)) small)
  ]
  pop_step-Advances mem c aborted e ne small = record {
    start = refl;
    forth = omega arith;
    at_most = omega arith;
    made = ne;
  }

-- Each access of `push` publishes one object at most.
pub published_step :
    (bits width : ℕ) {A : Type 0} (val : ℕ → A) (mem : Shared A) (pc : PushPc) (k : ℕ)
    → published (push_step bits width val mem pc).1 (count_push pc k) ≤ k + 1
unfolding push_step
published_step bits width val mem ready k = omega arith
published_step bits width val mem (loaded w) k = omega arith
published_step bits width val mem (versioned w v) k = omega arith
published_step bits width val mem (writing w v i) k = elim (Bool-cases (ltb i width)) [
  | inl more ↦ rw more (omega arith)
  | inr over ↦ rw over (omega arith)
]
published_step bits width val mem (stored w) k = omega arith

pub both : (a b : Bool) → (a && b) ≡ true → (a ≡ true) × (b ≡ true)
both true b e = (refl, e)
both false b e = cc

pub leb→le : (a b : ℕ) → leb a b ≡ true → a ≤ b
leb→le a b e = elim (dec_le a b) [
  | yes le ↦ le
  | no gt ↦ absurd (true≢false (sym e ∙ lt→leb a b (omega arith)))
]

-- What std::barrier lets a thread know.
pub consumers_arrived_lem :
    (epochs k : ℕ) (places : ℕ → Place) (count c : ℕ)
    → consumers_arrived epochs k places count ≡ true
    → c < count
    → k ≤ arrivals epochs (places c)
unfolding consumers_arrived
consumers_arrived_lem epochs k places zero c all lt = absurd (omega arith)
consumers_arrived_lem epochs k places (suc count) c all lt = elim (ℕ_discrete c count) [
  | yes e ↦
      subst (λ d. k ≤ arrivals epochs (places d)) (sym e)
        (leb→le k (arrivals epochs (places count)) (both _ _ all).0)
  | no ne ↦ consumers_arrived_lem epochs k places count c (both _ _ all).1 (omega arith)
]

-- A family that holds everywhere and of one new value holds of the updated function.
pub update_all :
    {X : Type 0} (P : ℕ → X → Type 0) (f : ℕ → X) (c : ℕ) (x : X)
    → P c x
    → ((d : ℕ) → P d (f d))
    → (d : ℕ) → P d (update f c x d)
update_all P f c x new old d = elim (ℕ_discrete c d) [
  | yes e ↦ subst (P d) (sym (update_self f c x e)) (subst (λ i. P i x) e new)
  | no ne ↦ subst (P d) (sym (update_ne f c x ne)) (old d)
]

pub update_both :
    {X Y : Type 0} (P : ℕ → X → Y → Type 0) (f : ℕ → X) (g : ℕ → Y) (c : ℕ) (x : X) (y : Y)
    → P c x y
    → ((d : ℕ) → P d (f d) (g d))
    → (d : ℕ) → P d (update f c x d) (update g c y d)
update_both P f g c x y new old d = elim (ℕ_discrete c d) [
  | yes e ↦
      subst (P d (update f c x d)) (sym (update_self g c y e))
        (subst (λ u. P d u y) (sym (update_self f c x e)) (subst (λ i. P i x y) e new))
  | no ne ↦
      subst (P d (update f c x d)) (sym (update_ne g c y ne))
        (subst (λ u. P d u (g d)) (sym (update_ne f c x ne)) (old d))
]
