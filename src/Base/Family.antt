-- ===== src/Base/Family.antt =====
-- The threads or processes of a program as a family, a change of one of them, and sums over the first `n`.
use school_projects.Base.{
  ℕ, zero, suc, ◌+◌, ◌≤◌, ◌<◌, ◌≡◌, ◌≢◌, ◌⊎◌, refl, arith, ◌==◌, ltb, if◌then◌else◌, Bool-cases,
  inl, inr,
}

pub same_or_different : (i j : ℕ) → (i ≡ j) ⊎ (i ≢ j)
same_or_different i j = elim (Bool-cases (i == j)) [
  | inl same ↦ inl (ground arith)
  | inr different ↦ inr (λ e. ground arith)
]

module _ {A : Type 0} where
  abbrev pub change : (ℕ → A) → ℕ → A → ℕ → A
  change f i a j = if i == j then a else f j

module _ {A : Type 0} (w : A → ℕ) where
  pub sum : ℕ → (ℕ → A) → ℕ
  sum zero f = 0
  sum (suc n) f = w (f n) + sum n f

  sum-change_outside : (n i : ℕ) (f : ℕ → A) (a : A) → n ≤ i → sum n (change f i a) ≡ sum n f
  unfolding sum
  sum-change_outside zero i f a h = refl
  sum-change_outside (suc n) i f a h = ground (arith, sum-change_outside n i f a)

  pub sum-change :
      (n i : ℕ) (f : ℕ → A) (a : A) → i < n → sum n (change f i a) + w (f i) ≡ sum n f + w a
  unfolding sum
  sum-change zero i f a h = absurd (omega arith)
  sum-change (suc n) i f a h = elim (Bool-cases (i == n)) [
    | inl last ↦ ground (arith, sum-change_outside n i f a)
    | inr below ↦ ground (arith, sum-change n i f a)
  ]

  pub le-sum : (n i : ℕ) (f : ℕ → A) → i < n → w (f i) ≤ sum n f
  unfolding sum
  le-sum zero i f h = absurd (omega arith)
  le-sum (suc n) i f h = ground (arith, le-sum n i f)

  -- Two of the family add up to no more than the sum.
  pub add-le-sum : (n i j : ℕ) (f : ℕ → A) → i < n → j < n → i ≢ j → w (f i) + w (f j) ≤ sum n f
  unfolding sum
  add-le-sum zero i j f hi hj ne = absurd (omega arith)
  add-le-sum (suc n) i j f hi hj ne = ground (arith, add-le-sum n i j f, le-sum n i f, le-sum n j f)

  pub sum_const : (n : ℕ) (a : A) → w a ≡ 0 → sum n (λ _. a) ≡ 0
  unfolding sum
  sum_const zero a h = refl
  sum_const (suc n) a h = omega (arith, h, sum_const n a h)

  pub sum-le : ((a : A) → w a ≤ 1) → (n : ℕ) (f : ℕ → A) → sum n f ≤ n
  unfolding sum
  sum-le h zero f = omega arith
  sum-le h (suc n) f = omega (arith, h (f n), sum-le h n f)

  -- A full sum has no gap.
  pub full-sum : ((a : A) → w a ≤ 1) → (n i : ℕ) (f : ℕ → A) → sum n f ≡ n → i < n → w (f i) ≡ 1
  unfolding sum
  full-sum h zero i f e l = absurd (omega arith)
  full-sum h (suc n) i f e l = ground (arith, full-sum h n i f, h (f n), sum-le h n f)

  -- A positive sum has a positive summand.
  pub pick : (n : ℕ) (f : ℕ → A) → 0 < sum n f → (i : ℕ) × (i < n) × (0 < w (f i))
  unfolding sum
  pick zero f h = absurd (omega arith)
  pick (suc n) f h = elim (Bool-cases (ltb 0 (w (f n)))) [
    | inl here ↦ (n, omega arith, ground arith)
    | inr below ↦ let (i, l, more) = pick n f (ground arith) in (i, omega (arith, l), more)
  ]

  pub sum_idle : (n : ℕ) (f : ℕ → A) → ((i : ℕ) → i < n → ¬ (0 < w (f i))) → sum n f ≡ 0
  sum_idle n f h = elim (Bool-cases (ltb 0 (sum n f))) [
    | inl more ↦ let (i, l, busy) = pick n f (ground arith) in absurd (h i l busy)
    | inr idle ↦ ground arith
  ]

  pub sum_single :
      (n i : ℕ) (f : ℕ → A) → ((j : ℕ) → j < n → j ≢ i → w (f j) ≡ 0) → sum n f ≤ w (f i)
  unfolding sum
  sum_single zero i f h = omega arith
  sum_single (suc n) i f h = elim (Bool-cases (n == i)) [
    | inl last ↦
        let here : n ≡ i = ground arith in
        let none =
          sum_idle n f
            (λ j lt more. ground (arith, h j (omega (arith, lt)) (omega (arith, here, lt)))) in
        rw⁻¹ here (omega (arith, none))
    | inr other ↦
        let rest = sum_single n i f (λ j lt ne. h j (omega (arith, lt)) ne) in
        omega (arith, rest, h n (omega arith) (ground arith))
  ]

module _ {A : Type 0} (v w : A → ℕ) where
  pub sum-le-sum : ((a : A) → v a ≤ w a) → (n : ℕ) (f : ℕ → A) → sum v n f ≤ sum w n f
  unfolding sum
  sum-le-sum h zero f = omega arith
  sum-le-sum h (suc n) f = omega (arith, h (f n), sum-le-sum h n f)

  -- Where nothing is marked, no values are.
  pub sum_zero : ((a : A) → v a ≡ 0 → w a ≡ 0) → (n : ℕ) (f : ℕ → A) → sum v n f ≡ 0 → sum w n f ≡ 0
  unfolding sum
  sum_zero h zero f e = refl
  sum_zero h (suc n) f e =
      omega (arith, h (f n) (omega (arith, e)), sum_zero h n f (omega (arith, e)))

  pub sum_add : (n : ℕ) (f : ℕ → A) → sum (λ a. v a + w a) n f ≡ sum v n f + sum w n f
  unfolding sum
  sum_add zero f = omega arith
  sum_add (suc n) f = omega (arith, sum_add n f)
