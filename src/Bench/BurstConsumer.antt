-- ===== src/Bench/BurstConsumer.antt =====
-- The thread of one consumer in `run_spmc_burst_bench` of src/spmc_burst_bench.cpp, over what its
-- calls of `pop` return: an object, or `none` for false.
use lock_free_queues.Prelude.{
  ℕ, zero, suc, ◌+◌, ◌-◌, ◌*◌, ◌≤◌, ◌<◌, ◌≡◌, refl, sym, ap, ◌∙◌, List, [], ◌∷◌, ◌++◌, Option, none,
  some, arith, length, take, drop, drop-drop, length-drop, ◌>>=◌, subst,
}
use lock_free_queues.Prelude.Words.{word_mod}
use lock_free_queues.Bench.Burst.{epoch_count, epoch_start, epoch_messages}
use lock_free_queues.Bench.Burst.Facts.{epoch_count_lem, take-nil}

module _ {ℓ} {T : Type ℓ} where
  -- The inner loop around `pop`: the object, and the results not used yet. `none` is a wait that
  -- the results given do not end.
  unfoldable pub await_pop : List (Option T) → Option (T × List (Option T))
  await_pop [] = none
  await_pop (none ∷ results) = await_pop results
  await_pop (some value ∷ results) = some (value, results)

  -- The loop of one epoch, `count` objects to go.
  unfoldable pub epoch_pops : ℕ → List (Option T) → Option (List T × List (Option T))
  epoch_pops zero results = some ([], results)
  epoch_pops (suc count) results = do
    (value, rest) ← await_pop results
    (values, rest') ← epoch_pops count rest
    some (value ∷ values, rest')

  -- The loop over the epochs: `epochs` to go from `epoch` on, of `n` messages in bursts of `burst`.
  unfoldable pub consumer_thread :
      ℕ → ℕ → ℕ → ℕ → List (Option T) → Option (List T × List (Option T))
  consumer_thread n burst zero epoch results = some ([], results)
  consumer_thread n burst (suc epochs) epoch results = do
    (values, rest) ← epoch_pops (epoch_messages n burst epoch) results
    (values', rest') ← consumer_thread n burst epochs (epoch + 1) rest
    some (values ++ values', rest')

  -- The objects among the results.
  abbrev pub served : List (Option T) → List T
  served [] = []
  served (none ∷ results) = served results
  served (some value ∷ results) = value ∷ served results

  await_pop_lem :
      (results : List (Option T)) (v : T) (vs : List T)
      → served results ≡ v ∷ vs
      → (rest : List (Option T)) × (await_pop results ≡ some (v, rest)) × (served rest ≡ vs)
  unfolding await_pop
  await_pop_lem [] v vs e = cc
  await_pop_lem (none ∷ results) v vs e = await_pop_lem results v vs e
  await_pop_lem (some x ∷ results) v vs e = (results, cc, cc)

  -- What a loop that takes the first `k` objects gives.
  abbrev pub Takes : ℕ → List (Option T) → Option (List T × List (Option T)) → Type ℓ
  Takes k results r =
      (rest : List (Option T)) × (r ≡ some (take k (served results), rest))
      × (served rest ≡ drop k (served results))

  epoch_pops-Takes_from :
      (k : ℕ) (results : List (Option T)) (vs : List T)
      → served results ≡ vs
      → k ≤ length vs
      → (rest : List (Option T)) × (epoch_pops k results ≡ some (take k vs, rest))
        × (served rest ≡ drop k vs)
  unfolding epoch_pops
  epoch_pops-Takes_from zero results vs e le = (results, refl, e)
  epoch_pops-Takes_from (suc k) results [] e le = absurd (omega arith)
  epoch_pops-Takes_from (suc k) results (v ∷ vs) e le =
      let (rest, ok, left) = await_pop_lem results v vs e in
      let (rest', ok', left') = epoch_pops-Takes_from k rest vs left (omega arith) in
      (rest', rw (ok, ok') refl, left')

  take_in_two : (a b c : ℕ) (xs : List T) → c ≡ a + b → take a xs ++ take b (drop a xs) ≡ take c xs
  take_in_two zero b c xs e = ap (λ k. take k xs) (omega arith)
  take_in_two (suc a) b c [] e = take-nil b ∙ sym (take-nil c)
  take_in_two (suc a) b zero (x ∷ xs) e = absurd (omega arith)
  take_in_two (suc a) b (suc c) (x ∷ xs) e = ap (λ r. x ∷ r) (take_in_two a b c xs (omega arith))

  -- The first `a` items, and then `b` of what is left.
  two_cuts :
      (a b c : ℕ) (xs : List T) {ys zs : List T}
      → ys ≡ drop a xs
      → zs ≡ drop b ys
      → c ≡ a + b
      → (take a xs ++ take b ys ≡ take c xs) × (zs ≡ drop c xs)
  two_cuts a b c xs {ys} {zs} e e' sum = (
    ap (λ r. take a xs ++ take b r) e ∙ take_in_two a b c xs sum,
    e' ∙ ap (drop b) e ∙ drop-drop a b xs ∙ ap (λ k. drop k xs) (sym sum),
  )

  module _ (n burst : ℕ) (pos : 0 < burst) (fit : n + burst < word_mod) where
    thread_rest :
        (epochs epoch : ℕ) (results : List (Option T))
        → n ≤ (epoch + epochs) * burst
        → (epoch + epochs) * burst < n + burst
        → n - epoch * burst ≤ length (served results)
        → Takes (n - epoch * burst) results (consumer_thread n burst epochs epoch results)
    unfolding consumer_thread epoch_messages epoch_start
    thread_rest zero epoch results lo hi enough = (
      results,
      ap (λ k. some (take k (served results), results)) {x = zero} (omega arith),
      ap (λ k. drop k (served results)) {x = zero} (omega arith),
    )
    thread_rest (suc epochs) epoch results lo hi enough =
        let (rest, ok, left) =
          epoch_pops-Takes_from here results (served results) refl (omega arith) in
        let (rest', ok', left') =
          thread_rest epochs (epoch + 1) rest (omega arith) (omega arith)
            (omega (arith, ap length left, length-drop here (served results))) in
        let joined =
          two_cuts here later (n - epoch * burst) (served results) left left' (omega arith) in
        (rest', rw (ok, ok') (ap (λ r. some (r, rest')) joined.0), joined.1)
      where
        before : epoch * burst ≤ (epoch + epochs) * burst
        before = grind arith

        here : ℕ
        here = epoch_messages n burst epoch

        later : ℕ
        later = n - (epoch + 1) * burst

    -- For a positive burst size, and if messages and burst size add up to less than 2^64, a
    -- consumer whose calls of `pop` deliver `n` objects or more ends its thread; it has then taken
    -- the first `n` of them, in order, whatever the calls that returned false.
    pub consumer_thread-Takes :
        (results : List (Option T))
        → n ≤ length (served results)
        → Takes n results (consumer_thread n burst (epoch_count n burst) 0 results)
    consumer_thread-Takes results enough =
        let count = epoch_count_lem n burst pos fit in
        subst (λ k. Takes k results (consumer_thread n burst (epoch_count n burst) 0 results))
          {x = n - 0 * burst} (omega arith)
          (thread_rest (epoch_count n burst) 0 results
            (omega (arith, count, ap (λ k. k * burst) count.0))
            (omega (arith, count, ap (λ k. k * burst) count.0)) (omega arith))
