-- ===== src/Sieve/Marks.antt =====
-- What the loops of `Eratosthenes` cross out.
use school_projects.Base.{
  ℕ, zero, suc, ◌+◌, ◌*◌, ◌≤◌, ◌<◌, ◌≡◌, ◌⊎◌, refl, ◌∙◌, ap, arith, ◌==◌, ltb, true, some, inl, inr,
  Bool-cases,
}
use native.Mathlib.Nat.{mul-le-mul_left, mul-le-mul_right}
use school_projects.Sieve.{BitArray, cross_out}
use school_projects.Sieve.Bits.{bit, Room, Sets, setbit-Sets}

-- `k` is `i` times some number from `j` on.
abbrev pub TimesFrom : (i j k : ℕ) → Type 0
TimesFrom i j k = (t : ℕ) × (j ≤ t) × (k ≡ i * t)

-- `a'` is `a` but for the multiples of `i` from `i * j` on, which are marked.
pub record Crossed (a : BitArray) (i j : ℕ) (a' : BitArray) : Type 0 where
  pub size : a'.size ≡ a.size
  pub room : Room a'
  pub keeps : (k : ℕ) → bit a k ≡ true → bit a' k ≡ true
  pub marks : (k : ℕ) → k < a.size → TimesFrom i j k → bit a' k ≡ true
  pub only : (k : ℕ) → bit a' k ≡ true → (bit a k ≡ true) ⊎ TimesFrom i j k

nothing_left : (i j : ℕ) (a : BitArray) → Room a → a.size ≤ i * j → Crossed a i j a
nothing_left i j a r past = record {
  size = refl;
  room = r;
  keeps = λ k h. h;
  marks = λ k lt (t, l, e). absurd (omega (arith, past, mul-le-mul_left i l));
  only = λ k h. inl h;
}

module _ (i j : ℕ) {a b a' : BitArray} (s : Sets a (i * j) b) (c : Crossed b i (suc j) a') where
  keeps_more : (k : ℕ) → bit a k ≡ true → bit a' k ≡ true
  keeps_more k h = c.keeps k (ground (arith, s.bits k))

  marks_more : (k : ℕ) → k < a.size → TimesFrom i j k → bit a' k ≡ true
  marks_more k lt (t, l, e) = elim (Bool-cases (t == j)) [
    | inl first ↦
        let here : k ≡ i * j =
          e ∙ ap (λ (u : ℕ). i * u) (let same : t ≡ j = ground arith in same) in
        c.keeps k (ground (arith, s.bits k, here))
    | inr later ↦ c.marks k (omega (arith, s.size)) (t, ground arith, e)
  ]

  only_more : (k : ℕ) → bit a' k ≡ true → (bit a k ≡ true) ⊎ TimesFrom i j k
  only_more k h = elim (c.only k h) [
    | inr (t, l, e) ↦ inr (t, omega arith, e)
    | inl marked ↦ elim (Bool-cases (k == i * j)) [
      | inl here ↦ inr (j, omega arith, ground arith)
      | inr other ↦ inl (ground (arith, s.bits k))
    ]
  ]

  step-Crossed : Crossed a i j a'
  step-Crossed = record {
    size = c.size ∙ s.size;
    room = c.room;
    keeps = keeps_more;
    marks = marks_more;
    only = only_more;
  }

pub cross_out-Crossed :
    (fuel i j : ℕ) (a : BitArray)
    → Room a
    → 0 < i
    → 0 < fuel
    → a.size < fuel + j
    → (a' : BitArray) × (cross_out fuel i j a ≡ some a') × Crossed a i j a'
unfolding cross_out
cross_out-Crossed zero i j a r pos g f = absurd (omega arith)
cross_out-Crossed (suc fuel) i j a r pos g f = elim (Bool-cases (ltb (i * j) a.size)) [
  | inr past ↦ (a, ground arith, nothing_left i j a r (ground arith))
  | inl more ↦
      let at_least : 1 * j ≤ i * j = mul-le-mul_right j pos in
      let inside : i * j < a.size = ground arith in
      let (b, e, s) = setbit-Sets a (i * j) r inside in
      let (a', e', c) =
        cross_out-Crossed fuel i (suc j) b s.room pos (omega arith) (omega (arith, s.size, f)) in
      (a', ground (arith, e, e'), step-Crossed i j s c)
]
