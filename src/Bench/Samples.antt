-- ===== src/Bench/Samples.antt =====
-- Concrete functions for the parameters of the benchmark models.
use lock_free_queues.Prelude.{
  ℕ, zero, suc, ◌+◌, ◌*◌, ◌%◌, ◌/◌, ◌-◌, ◌≤◌, ◌≡◌, refl, List, [], ◌∷◌, some, arith, if◌then◌else◌,
  length, get_elem?, leb, le→leb, lt→leb, dec_le,
}
use mathlib.Core.List.{Perm}
use mathlib.Core.List.Perm
use native.Mathlib.Nat.{mod-lt}
use lock_free_queues.Bench.Report.{Percentile, p50, p95, p99, p999}
use lock_free_queues.Bench.Report.Facts.{IsSorting, IsRank}
use lock_free_queues.Bench.Workload.{Random, IsUniform}

-- Insertion sort stands for std::sort.
insert : ℕ → List ℕ → List ℕ
insert x [] = x ∷ []
insert x (y ∷ ys) = if leb x y then x ∷ y ∷ ys else y ∷ insert x ys

pub isort : List ℕ → List ℕ
isort [] = []
isort (x ∷ xs) = insert x (isort xs)

abbrev AllGe : ℕ → List ℕ → Type 0
AllGe x [] = Unit {0}
AllGe x (y ∷ ys) = (x ≤ y) × AllGe x ys

abbrev Ascending : List ℕ → Type 0
Ascending [] = Unit {0}
Ascending (x ∷ xs) = AllGe x xs × Ascending xs

AllGe-trans : (x y : ℕ) (ys : List ℕ) → x ≤ y → AllGe y ys → AllGe x ys
AllGe-trans x y [] le h = tt
AllGe-trans x y (z ∷ zs) le h = (omega (arith, h.0), AllGe-trans x y zs le h.1)

AllGe-insert : (w x : ℕ) (ys : List ℕ) → w ≤ x → AllGe w ys → AllGe w (insert x ys)
unfolding insert
AllGe-insert w x [] le h = (le, tt)
AllGe-insert w x (y ∷ ys) le h = elim (dec_le x y) [
  | yes small ↦ rw (le→leb x y small) (le, h)
  | no big ↦ rw (lt→leb x y (omega arith)) (h.0, AllGe-insert w x ys le h.1)
]

Ascending-insert : (x : ℕ) (ys : List ℕ) → Ascending ys → Ascending (insert x ys)
unfolding insert
Ascending-insert x [] h = (tt, tt)
Ascending-insert x (y ∷ ys) h = elim (dec_le x y) [
  | yes small ↦ rw (le→leb x y small) ((small, AllGe-trans x y ys small h.0), h)
  | no big ↦
      rw (lt→leb x y (omega arith))
        (AllGe-insert y x ys (omega arith) h.0, Ascending-insert x ys h.1)
]

Ascending-isort : (xs : List ℕ) → Ascending (isort xs)
unfolding isort
Ascending-isort [] = tt
Ascending-isort (x ∷ xs) = Ascending-insert x (isort xs) (Ascending-isort xs)

length-insert : (x : ℕ) (ys : List ℕ) → length (insert x ys) ≡ suc (length ys)
unfolding insert
length-insert x [] = refl
length-insert x (y ∷ ys) = ground (arith, length-insert x ys)

length-isort : (xs : List ℕ) → length (isort xs) ≡ length xs
unfolding isort
length-isort [] = refl
length-isort (x ∷ xs) = omega (arith, length-insert x (isort xs), length-isort xs)

AllGe-item : (x : ℕ) (ys : List ℕ) (i a : ℕ) → AllGe x ys → get_elem? ys i ≡ some a → x ≤ a
AllGe-item x [] i a h e = cc
AllGe-item x (y ∷ ys) zero a h e = ground (arith, h.0)
AllGe-item x (y ∷ ys) (suc i) a h e = AllGe-item x ys i a h.1 e

Ascending-items :
    (xs : List ℕ) (i j a b : ℕ)
    → Ascending xs
    → i ≤ j
    → get_elem? xs i ≡ some a
    → get_elem? xs j ≡ some b
    → a ≤ b
Ascending-items [] i j a b h le ea eb = cc
Ascending-items (x ∷ xs) zero zero a b h le ea eb = ground arith
Ascending-items (x ∷ xs) zero (suc j) a b h le ea eb =
    let low : x ≤ b = AllGe-item x xs j b h.0 eb in ground arith
Ascending-items (x ∷ xs) (suc i) zero a b h le ea eb = absurd (omega arith)
Ascending-items (x ∷ xs) (suc i) (suc j) a b h le ea eb =
    Ascending-items xs i j a b h.1 (omega arith) ea eb

insert-Perm : (x : ℕ) (ys : List ℕ) → Perm (insert x ys) (x ∷ ys)
unfolding insert
insert-Perm x [] = Perm.refl (x ∷ [])
insert-Perm x (y ∷ ys) = elim (dec_le x y) [
  | yes small ↦ rw (le→leb x y small) (Perm.refl (x ∷ y ∷ ys))
  | no big ↦
      rw (lt→leb x y (omega arith)) (Perm.trans (Perm.cons y (insert-Perm x ys)) (Perm.swap x y ys))
]

isort-Perm : (xs : List ℕ) → Perm (isort xs) xs
unfolding isort
isort-Perm [] = Perm.refl []
isort-Perm (x ∷ xs) = Perm.trans (insert-Perm x (isort xs)) (Perm.cons x (isort-Perm xs))

pub isort-IsSorting : IsSorting isort
isort-IsSorting = record {
  keeps_length = length-isort;
  permutes = isort-Perm;
  ordered = λ xs i j a b le ea eb. Ascending-items (isort xs) i j a b (Ascending-isort xs) le ea eb;
}

-- Exact arithmetic stands for the doubles.
abbrev pub rank : Percentile → ℕ → ℕ
rank p50 n = n * 500 / 1000
rank p95 n = n * 950 / 1000
rank p99 n = n * 990 / 1000
rank p999 n = n * 999 / 1000

rank-bounded : (p : Percentile) (n : ℕ) → rank p n ≤ n
rank-bounded p50 n = omega arith
rank-bounded p95 n = omega arith
rank-bounded p99 n = omega arith
rank-bounded p999 n = omega arith

pub rank-IsRank : IsRank rank
rank-IsRank = record {
  bounded = rank-bounded;
  rising_p95 = λ n. omega arith;
  rising_p99 = λ n. omega arith;
  rising_p999 = λ n. omega arith;
}

-- A generator that counts, and distributions that take its state modulo the range.
abbrev draw : ℕ → ℕ → ℕ → ℕ × ℕ
draw lo hi s = (lo + s % (hi - lo + 1), s + 1)

abbrev pub counting : Random ℕ
counting = record { price_dist = draw; qty_dist = draw; side_dist = draw }

draw_in : (lo hi s : ℕ) → lo ≤ hi → (lo ≤ (draw lo hi s).0) × ((draw lo hi s).0 ≤ hi)
draw_in lo hi s le = (omega arith, omega (arith, mod-lt s {m = hi - lo + 1} (omega arith)))

pub counting-IsUniform : IsUniform counting
counting-IsUniform = record { price_in = draw_in; qty_in = draw_in }
