-- ===== src/Bench/Report/Sums.antt =====
-- Sums over the samples of a report, which do not depend on their order.
use mathlib.Core.Logic.{∥∥₁_elim}
use mathlib.Core.List.{Perm, Permᴰ}
use native.Mathlib.Nat.{ℕ_set}
use lock_free_queues.Prelude.{
  ℕ, ◌+◌, ◌≡◌, List, [], ◌∷◌, Option, none, some, arith, ◌==◌, if◌then◌else◌, ap, ap₂, refl, ◌∙◌,
}
use lock_free_queues.Bench.Clock.{cycles_to_ns}

-- The sum of `f` over the samples.
abbrev pub weigh : (ℕ → ℕ) → List ℕ → ℕ
weigh f [] = 0
weigh f (x ∷ xs) = f x + weigh f xs

weigh-Permᴰ : (f : ℕ → ℕ) {xs ys : List ℕ} → Permᴰ xs ys → weigh f xs ≡ weigh f ys
weigh-Permᴰ f Permᴰ.nil = refl
weigh-Permᴰ f (Permᴰ.cons e d) = ap₂ ◌+◌ (ap f e) (weigh-Permᴰ f d)
weigh-Permᴰ f (Permᴰ.swap e e') = omega (arith, ap f e, ap f e')
weigh-Permᴰ f (Permᴰ.trans d d') = weigh-Permᴰ f d ∙ weigh-Permᴰ f d'

pub weigh-Perm : (f : ℕ → ℕ) {xs ys : List ℕ} → Perm xs ys → weigh f xs ≡ weigh f ys
weigh-Perm f p = ∥∥₁_elim p (ℕ_set _ _) (weigh-Permᴰ f)

abbrev pub same : ℕ → Option ℕ → ℕ
same ns none = 0
same ns (some k) = if k == ns then 1 else 0

-- The number of samples of `ns` nanoseconds at the frequency.
abbrev pub samples_at : ℕ → ℕ → List ℕ → ℕ
samples_at freq ns = weigh (λ cycles. same ns (cycles_to_ns cycles freq))
