-- ===== src/Bench/Workload.antt =====
-- `make_random_changes`, which all three drivers have, and the epochs of src/spmc_burst_bench.cpp.
use lock_free_queues.Prelude.{
  ℕ, zero, suc, ◌+◌, ◌≤◌, ◌≡◌, List, [], ◌∷◌, ◌++◌, arith, length, if◌then◌else◌, ◌==◌,
  length-append,
}

pub data Side : Type 0 where
  none_side bid ask : Side

pub record BestLvlChange : Type 0 where
  pub qty : ℕ
  pub price : ℕ
  pub side : Side

-- The generator `S` and the three distributions, as drawn from: `lo` and `hi` are their bounds.
pub record Random (S : Type 0) : Type 0 where
  pub price_dist : ℕ → ℕ → S → ℕ × S
  pub qty_dist : ℕ → ℕ → S → ℕ × S
  pub side_dist : ℕ → ℕ → S → ℕ × S

-- What std::uniform_int_distribution promises.
pub record IsUniform {S : Type 0} (r : Random S) : Type 0 where
  pub price_in :
      (lo hi : ℕ) (s : S)
      → lo ≤ hi
      → (lo ≤ (r.price_dist lo hi s).0) × ((r.price_dist lo hi s).0 ≤ hi)
  pub qty_in :
      (lo hi : ℕ) (s : S) → lo ≤ hi → (lo ≤ (r.qty_dist lo hi s).0) × ((r.qty_dist lo hi s).0 ≤ hi)

module _ {S : Type 0} (r : Random S) (min_price max_price min_qty max_qty : ℕ) where
  unfoldable pub random_change : S → BestLvlChange × S
  random_change s =
      let (price, s₁) = r.price_dist min_price max_price s in
      let (qty, s₂) = r.qty_dist min_qty max_qty s₁ in
      let (side, s₃) = r.side_dist 0 1 s₂ in
      (record { qty = qty; price = price; side = if side == 0 then Side.bid else Side.ask }, s₃)

  -- The loop: `n` rounds to go, the vector so far.
  unfoldable pub changes_from : ℕ → S → List BestLvlChange → List BestLvlChange
  unfolding random_change
  changes_from zero s values = values
  changes_from (suc n) s values =
      let (change, s') = random_change s in changes_from n s' (values ++ (change ∷ []))

  unfoldable pub make_random_changes : ℕ → S → List BestLvlChange
  unfolding changes_from
  make_random_changes n seed = changes_from n seed []

  abbrev pub InBounds : List BestLvlChange → Type 0
  InBounds [] = Unit {0}
  InBounds (c ∷ cs) =
      (min_price ≤ c.price)
      × (c.price ≤ max_price)
      × (min_qty ≤ c.qty)
      × (c.qty ≤ max_qty)
      × InBounds cs

  InBounds-append :
      (xs : List BestLvlChange) (c : BestLvlChange)
      → InBounds xs
      → InBounds (c ∷ [])
      → InBounds (xs ++ (c ∷ []))
  InBounds-append [] c h k = k
  InBounds-append (x ∷ xs) c h k = (h.0, h.1, h.2, h.3, InBounds-append xs c h.4 k)

  module _ (u : IsUniform r) (prices : min_price ≤ max_price) (qtys : min_qty ≤ max_qty) where
    changes_from_lem :
        (n : ℕ) (s : S) (values : List BestLvlChange)
        → InBounds values
        → (length (changes_from n s values) ≡ length values + n)
          × InBounds (changes_from n s values)
    unfolding changes_from
    changes_from_lem zero s values h = (omega arith, h)
    changes_from_lem (suc n) s values h =
        let p = r.price_dist min_price max_price s in
        let q = r.qty_dist min_qty max_qty p.1 in
        let price = u.price_in min_price max_price s prices in
        let qty = u.qty_in min_qty max_qty p.1 qtys in
        let (len, inside) =
          changes_from_lem n (random_change s).1 (values ++ ((random_change s).0 ∷ []))
            (InBounds-append values (random_change s).0 h (price.0, price.1, qty.0, qty.1, tt)) in
        (omega (arith, len, length-append values ((random_change s).0 ∷ [])), inside)

    -- With distributions that stay in their bounds, and bounds in order, the workload has as many
    -- changes as asked for, each with price and quantity in their ranges.
    pub make_random_changes_lem :
        (n : ℕ) (seed : S)
        → (length (make_random_changes n seed) ≡ n) × InBounds (make_random_changes n seed)
    unfolding make_random_changes
    make_random_changes_lem n seed =
        let (len, inside) = changes_from_lem n seed [] tt in (omega (arith, len), inside)
