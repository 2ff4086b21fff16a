-- ===== src/Bench/DpdkRun/Facts.antt =====
-- What `main` of src/bench_dpdk.cpp comes to.
use lock_free_queues.Prelude.{
  ℕ, ◌+◌, ◌≤◌, ◌≡◌, ◌≢◌, refl, List, [], ◌∷◌, true, arith, ◌==◌, if◌then◌else◌,
}
use lock_free_queues.Bench.DpdkRun.{
  samples_count, Event, Outcome, spinning, threw, exported, finish, consumer, enqueue_loop,
  returned, join, main,
}

-- The objects that a consumer took.
abbrev pub taken : List Event → ℕ
taken [] = 0
taken (ev ∷ evs) = (if ev.rc == 0 then 1 else 0) + taken evs

enqueue_loop-le : (rcs : List ℕ) (i : ℕ) → i ≤ samples_count → enqueue_loop rcs i ≤ samples_count
unfolding enqueue_loop
enqueue_loop-le [] i le = le
enqueue_loop-le (rc ∷ rcs) i le = ground (arith, enqueue_loop-le rcs (i + 1))

finish-exported : (i : ℕ) → finish i ≡ exported → i ≡ samples_count
unfolding finish
finish-exported i e = ground arith

-- A consumer that exports has taken every sample itself.
consumer-exported :
    (evs : List Event) (i : ℕ) → consumer evs i ≡ exported → samples_count ≤ i + taken evs
unfolding consumer
consumer-exported [] i e = ground (arith, finish-exported i)
consumer-exported (ev ∷ evs) i e = ground (
  arith,
  consumer-exported evs (i + 1),
  consumer-exported evs i,
  finish-exported i,
  finish-exported (i + 1),
)

join-returned :
    (a b : Outcome) (code : ℕ) → join a b ≡ returned code → (a ≡ exported) × (b ≡ exported)
unfolding join
join-returned spinning spinning code e = cc
join-returned spinning threw code e = cc
join-returned spinning exported code e = cc
join-returned threw b code e = cc
join-returned exported spinning code e = cc
join-returned exported threw code e = cc
join-returned exported exported code e = (refl, refl)

-- With both initialisations done, and no more objects taken from the ring than were enqueued,
-- `main` never returns: the two consumers want `samples_count` objects each, of `samples_count` in
-- all.
pub main_never_returns :
    (rcs : List ℕ) (evs₀ evs₁ : List Event) (code : ℕ)
    → taken evs₀ + taken evs₁ ≤ enqueue_loop rcs 0
    → main true true evs₀ evs₁ ≢ returned code
unfolding main
main_never_returns rcs evs₀ evs₁ code once e =
    let (a, b) = join-returned (consumer evs₀ 0) (consumer evs₁ 0) code e in
    absurd (
      omega (
        arith,
        once,
        enqueue_loop-le rcs 0 (omega arith),
        consumer-exported evs₀ 0 a,
        consumer-exported evs₁ 0 b,
      ))
