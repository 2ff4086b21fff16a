-- ===== src/Bench/Burst/Facts.antt =====
-- The epochs of src/spmc_burst_bench.cpp and its metrics.
use lock_free_queues.Prelude.{
  ℕ, zero, suc, ◌+◌, ◌-◌, ◌*◌, ◌/◌, ◌%◌, ◌≤◌, ◌<◌, ◌≡◌, refl, sym, ap, ap₂, ◌∙◌, List, [], ◌∷◌,
  ◌++◌, arith, length, min, take, drop, take-append-drop, drop-drop, length-drop, some, dec_le,
  Option, get_elem?,
}
use native.Mathlib.Nat.{div-add-mod, mod-lt}
use lock_free_queues.Prelude.Words.{add64, sub64, mul64, word_mod}
use lock_free_queues.Bench.Burst.{
  epoch_count, epoch_start, epoch_messages, EpochMetrics, total_cycles, epoch_pushes, all_pushes,
  epoch_metrics, max_element,
}

-- The number of epochs is the quotient rounded up.
pub epoch_count_lem :
    (n burst : ℕ)
    → 0 < burst
    → n + burst < word_mod
    → (epoch_count n burst ≡ (n + burst - 1) / burst)
      × (n ≤ (n + burst - 1) / burst * burst)
      × ((n + burst - 1) / burst * burst < n + burst)
unfolding epoch_count
epoch_count_lem n burst pos fit = (
  ap (λ k. k / burst) (omega arith),
  omega (arith, div-add-mod (n + burst - 1) burst, mod-lt (n + burst - 1) pos),
  omega (arith, div-add-mod (n + burst - 1) burst),
)

module _ {ℓ} {T : Type ℓ} where
  drop_all : (k : ℕ) (xs : List T) → length xs ≤ k → drop k xs ≡ []
  drop_all zero [] h = refl
  drop_all zero (x ∷ xs) h = absurd (omega arith)
  drop_all (suc k) [] h = refl
  drop_all (suc k) (x ∷ xs) h = drop_all k xs (omega arith)

  take_over : (b k : ℕ) (xs : List T) → k ≡ min b (length xs) → take k xs ≡ take b xs
  take_over zero zero xs h = refl
  take_over zero (suc k) xs h = absurd (omega arith)
  take_over (suc b) zero [] h = refl
  take_over (suc b) (suc k) [] h = absurd (omega arith)
  take_over (suc b) zero (x ∷ xs) h = absurd (omega arith)
  take_over (suc b) (suc k) (x ∷ xs) h = ap (λ r. x ∷ r) (take_over b k xs (omega arith))

  pub take-nil : (k : ℕ) → take {A = T} k [] ≡ []
  take-nil zero = refl
  take-nil (suc k) = refl

  module _ (burst : ℕ) (changes : List T) (small : length changes < word_mod) where
    -- An epoch pushes the next `burst` changes, or what is left of them.
    epoch_pushes_lem :
        (epoch : ℕ)
        → epoch * burst < word_mod
        → epoch_pushes burst changes epoch ≡ take burst (drop (epoch * burst) changes)
    unfolding epoch_pushes epoch_messages epoch_start
    epoch_pushes_lem epoch fit =
        ap (λ k. take (min burst (sub64 (length changes) k)) (drop k changes)) start
        ∙ elim (dec_le (epoch * burst) (length changes)) [
          | yes le ↦
              take_over burst _ (drop (epoch * burst) changes)
                (omega (arith, length-drop (epoch * burst) changes))
          | no gt ↦
              rw (drop_all (epoch * burst) changes (omega arith))
                (take-nil _ ∙ sym (take-nil burst))
        ]
      where
        start : mul64 epoch burst ≡ epoch * burst
        start = omega arith

    all_pushes_rest :
        (epochs epoch : ℕ)
        → (epoch + epochs) * burst < word_mod
        → length changes ≤ (epoch + epochs) * burst
        → all_pushes burst changes epochs epoch ≡ drop (epoch * burst) changes
    unfolding all_pushes
    all_pushes_rest zero epoch fit le = sym (drop_all (epoch * burst) changes (omega arith))
    all_pushes_rest (suc epochs) epoch fit le =
        ap₂ ◌++◌ (epoch_pushes_lem epoch (grind arith)) (
          all_pushes_rest epochs (epoch + 1) (omega arith) (omega arith)
          ∙ ap (λ k. drop k changes) (omega arith)
          ∙ sym (drop-drop (epoch * burst) burst changes))
        ∙ take-append-drop burst (drop (epoch * burst) changes)

    -- For a positive burst size, and if changes and burst size add up to less than 2^64, the
    -- epochs of the benchmark push every change once and in order.
    pub pushes_every_change :
        0 < burst
        → length changes + burst < word_mod
        → all_pushes burst changes (epoch_count (length changes) burst) 0 ≡ changes
    pushes_every_change pos fit =
        ap (λ k. all_pushes burst changes k 0) (epoch_count_lem (length changes) burst pos fit).0
        ∙ all_pushes_rest ((length changes + burst - 1) / burst) 0
            (omega (arith, (epoch_count_lem (length changes) burst pos fit).1))
            (omega (arith, (epoch_count_lem (length changes) burst pos fit).1))
        ∙ ap (λ k. drop k changes) {y = zero} (omega arith)

abbrev pub sum_messages : List EpochMetrics → ℕ
sum_messages [] = 0
sum_messages (m ∷ ms) = m.messages + sum_messages ms

abbrev pub sum_cycles : List EpochMetrics → ℕ
sum_cycles [] = 0
sum_cycles (m ∷ ms) = m.processing_cycles + sum_cycles ms

pub total_cycles_lem :
    (ms : List EpochMetrics) (acc : ℕ)
    → acc < word_mod
    → total_cycles ms acc ≡ (acc + sum_cycles ms) % word_mod
unfolding total_cycles
total_cycles_lem [] acc h = omega arith
total_cycles_lem (m ∷ ms) acc h =
    total_cycles_lem ms (add64 acc m.processing_cycles) (omega arith) ∙ omega arith

module _ (n burst : ℕ) (producer_start : ℕ → ℕ) (first_done : ℕ → ℕ) (others_done : ℕ → List ℕ)
    (pos : 0 < burst) (fit : n + burst < word_mod) where
  abbrev metrics_from : ℕ → ℕ → List EpochMetrics
  metrics_from = epoch_metrics n burst producer_start first_done others_done

  abbrev metric : ℕ → Option EpochMetrics
  metric epoch = some (record {
    messages = epoch_messages n burst epoch;
    processing_cycles =
        sub64 (max_element (first_done epoch) (others_done epoch)) (producer_start epoch);
  })

  epoch_messages_lem :
      (epoch : ℕ) → epoch * burst ≤ n → epoch_messages n burst epoch ≡ min burst (n - epoch * burst)
  unfolding epoch_messages epoch_start
  epoch_messages_lem epoch le = omega arith

  messages_rest :
      (epochs epoch : ℕ)
      → n ≤ (epoch + epochs) * burst
      → (epoch + epochs) * burst < n + burst
      → (sum_messages (metrics_from epochs epoch) ≡ n - epoch * burst)
        × (length (metrics_from epochs epoch) ≡ epochs)
  unfolding epoch_metrics
  messages_rest zero epoch lo hi = (omega arith, refl)
  messages_rest (suc epochs) epoch lo hi =
      let (rest, len) = messages_rest epochs (epoch + 1) (omega arith) (omega arith) in
      (omega (arith, here, rest), omega (arith, len))
    where
      before : epoch * burst ≤ (epoch + epochs) * burst
      before = grind arith

      here : epoch_messages n burst epoch ≡ min burst (n - epoch * burst)
      here = epoch_messages_lem epoch (omega (arith, before))

  -- There is a metric for each epoch, and their messages add up to all messages.
  pub epoch_metrics_lem :
      (sum_messages (metrics_from (epoch_count n burst) 0) ≡ n)
      × (length (metrics_from (epoch_count n burst) 0) ≡ epoch_count n burst)
  epoch_metrics_lem = (omega (arith, all.0), all.1)
    where
      count :
          (epoch_count n burst ≡ (n + burst - 1) / burst)
          × (n ≤ (n + burst - 1) / burst * burst)
          × ((n + burst - 1) / burst * burst < n + burst)
      count = epoch_count_lem n burst pos fit

      all :
          (sum_messages (metrics_from (epoch_count n burst) 0) ≡ n - 0 * burst)
          × (length (metrics_from (epoch_count n burst) 0) ≡ epoch_count n burst)
      all =
          messages_rest (epoch_count n burst) 0 (omega (arith, count, ap (λ k. k * burst) count.0))
            (omega (arith, count, ap (λ k. k * burst) count.0))

  -- The metric of an epoch.
  pub get_elem?-epoch_metrics :
      (epochs epoch i : ℕ)
      → i < epochs
      → get_elem? (metrics_from epochs epoch) i
        ≡ some (record {
          messages = epoch_messages n burst (epoch + i);
          processing_cycles =
              sub64
                (max_element (first_done (epoch + i)) (others_done (epoch + i)))
                (producer_start (epoch + i));
        })
  unfolding epoch_metrics
  get_elem?-epoch_metrics zero epoch i lt = absurd (omega arith)
  get_elem?-epoch_metrics (suc epochs) epoch zero lt = ap metric (omega arith)
  get_elem?-epoch_metrics (suc epochs) epoch (suc i) lt =
      get_elem?-epoch_metrics epochs (epoch + 1) i (omega arith) ∙ ap metric (omega arith)
