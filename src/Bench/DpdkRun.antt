-- ===== src/Bench/DpdkRun.antt =====
-- `consumer` and `main` of src/bench_dpdk.cpp: two consumers of one `rte_ring`. What the DPDK calls
-- return, and what a load of `running` finds, are arguments.
pub mod Facts
use lock_free_queues.Prelude.{
  ℕ, zero, suc, ◌+◌, ◌*◌, ◌≤◌, ◌<◌, ◌≡◌, ◌≢◌, refl, ap, ◌∙◌, List, [], ◌∷◌, Bool, true, false, not,
  ◌&&◌, arith, ltb, ◌==◌, if◌then◌else◌, dec_lt, ℕ_discrete, lt→ltb, le→ltb, ne→==, ==_iff,
  Bool-cases, inl, inr,
}

abbrev pub samples_count : ℕ
samples_count = 2_000_000

-- One round of a consumer's loop: what rte_ring_dequeue returned, 0 for an object, and the value of
-- `running` that was loaded after it.
pub record Event : Type 0 where
  pub rc : ℕ
  pub running : Bool

-- How a consumer ended with the events given: `spinning` is not at all.
pub data Outcome : Type 0 where
  spinning threw exported : Outcome

-- The test behind the loop.
unfoldable pub finish : ℕ → Outcome
finish i = if i == samples_count then exported else threw

unfoldable pub consumer : List Event → ℕ → Outcome
unfolding finish
consumer [] i = if ltb i samples_count then spinning else finish i
consumer (ev ∷ evs) i =
    let read = ev.rc == 0 in
    let i' = if read then i + 1 else i in
    let rest = consumer evs i' in
    if ltb i samples_count
    then (if not ev.running && not read then finish i' else rest)
    else finish i

-- The producer's loop: what each rte_ring_enqueue returned; the objects in the ring behind it.
unfoldable pub enqueue_loop : List ℕ → ℕ → ℕ
enqueue_loop [] i = i
enqueue_loop (rc ∷ rcs) i =
    let rest = enqueue_loop rcs (i + 1) in
    if ltb i samples_count then (if rc == 0 then rest else i) else i

-- How the process ends. An exception that leaves a thread terminates it.
pub data Exit : Type 0 where
  returned : (code : ℕ) → Exit
  terminated hanging : Exit

unfoldable pub join : Outcome → Outcome → Exit
join threw b = terminated
join exported threw = terminated
join exported exported = returned 0
join exported spinning = hanging
join spinning threw = terminated
join spinning b = hanging

unfoldable pub main : Bool → Bool → List Event → List Event → Exit
unfolding join
main eal_ok ring_ok evs₀ evs₁ =
    if not eal_ok
    then returned 1
    else if not ring_ok
    then returned 1
    else join (consumer evs₀ 0) (consumer evs₁ 0)
