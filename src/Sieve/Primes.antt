-- ===== src/Sieve/Primes.antt =====
-- The numbers that `Eratosthenes` leaves unmarked.
use school_projects.Base.{
  ℕ, zero, suc, ◌+◌, ◌-◌, ◌*◌, ◌≤◌, ◌<◌, ◌≡◌, ◌≢◌, ◌⊎◌, ◌↔◌, ◌∙◌, ap, arith, ◌==◌, ltb, leb, Bool,
  true, false, some, inl, inr, Bool-cases,
}
use native.Mathlib.Nat.{mul-le-mul_right, mul-le-mul, mul_assoc, mul_comm}
use school_projects.Sieve.{BitArray, bit_array_create, bit_array_getbit, sieve_loop, eratosthenes}
use school_projects.Sieve.Bits.{
  bit, Room, getbit-eq_bit, Sets, setbit-Sets, create-Room, create-size, create-clear,
}
use school_projects.Sieve.Marks.{Crossed, cross_out-Crossed}

-- `k` is a product with a factor below `m`.
abbrev pub Divided : (m k : ℕ) → Type 0
Divided m k = (d : ℕ) × (e : ℕ) × (2 ≤ d) × (d < m) × (2 ≤ e) × (k ≡ d * e)

-- No two numbers from 2 on have the product `k`.
abbrev pub IsPrime : ℕ → Type 0
IsPrime k = (d e : ℕ) → 2 ≤ d → 2 ≤ e → k ≢ d * e

-- The multiples of the numbers below `m` are marked, and no others from 2 on.
pub record Sieved (n m : ℕ) (a : BitArray) : Type 0 where
  pub size : a.size ≡ n
  pub room : Room a
  pub marks : (k : ℕ) → k < n → Divided m k → bit a k ≡ true
  pub only : (k : ℕ) → 2 ≤ k → bit a k ≡ true → Divided m k

Divided-le : (m k : ℕ) → Divided m k → Divided (suc m) k
Divided-le m k (d, e, p, q, r, s) = (d, e, p, omega arith, r, s)

-- A multiple of a product is a product with the same first factor.
Divided-multiple : (m i e : ℕ) → Divided m i → 2 ≤ e → Divided m (i * e)
Divided-multiple m i e (d, f, p, q, r, s) h = (
  d,
  f * e,
  p,
  q,
  omega (arith, mul-le-mul_right e r, h),
  ap (λ (u : ℕ). u * e) s ∙ mul_assoc d f e,
)

module _ (n i : ℕ) {a : BitArray} (v : Sieved n i a) (from : 2 ≤ i) where
  marked-Sieved : bit a i ≡ true → Sieved n (suc i) a
  marked-Sieved h = record {
    size = v.size;
    room = v.room;
    marks = λ k lt (d, e, p, q, r, s). elim (Bool-cases (d == i)) [
      | inl same ↦ v.marks k lt (
          rw
            (let t : k ≡ i * e = s ∙ ap (λ (u : ℕ). u * e) (let w : d ≡ i = ground arith in w) in t)
            (Divided-multiple i i e (v.only i from h) r))
      | inr less ↦ v.marks k lt (d, e, p, ground arith, r, s)
    ];
    only = λ k l z. Divided-le i k (v.only k l z);
  }

  Crossed-Sieved : {a' : BitArray} → Crossed a i 2 a' → Sieved n (suc i) a'
  Crossed-Sieved c = record {
    size = c.size ∙ v.size;
    room = c.room;
    marks = λ k lt (d, e, p, q, r, s). elim (Bool-cases (d == i)) [
      | inl same ↦
          c.marks k (omega (arith, v.size))
            (e, r, s ∙ ap (λ (u : ℕ). u * e) (let w : d ≡ i = ground arith in w))
      | inr less ↦ c.keeps k (v.marks k lt (d, e, p, ground arith, r, s))
    ];
    only = λ k l z. elim (c.only k z) [
      | inl old ↦ Divided-le i k (v.only k l old)
      | inr (t, w, e) ↦ (i, t, from, omega arith, w, e)
    ];
  }

module _ (below : ℕ → ℕ → Bool) (n : ℕ) (large : 3 ≤ n)
    (root : (i : ℕ) → (below i n ≡ true) ↔ ((i - 1) * (i - 1) < n)) where
  -- While the outer loop runs its index is in the array.
  running-lt : (i : ℕ) → 2 ≤ i → (i - 1) * (i - 1) < n → i < n
  running-lt i from h = elim (Bool-cases (i == 2)) [
    | inl two ↦ ground arith
    | inr more ↦
        let twice : 2 * (i - 1) ≤ (i - 1) * (i - 1) = mul-le-mul_right (i - 1) (ground arith) in
        let from' : 3 ≤ i = ground arith in omega arith
  ]

  passed : (i : ℕ) → below i n ≡ false → n ≤ (i - 1) * (i - 1)
  passed i h = elim (Bool-cases (leb n ((i - 1) * (i - 1)))) [
    | inl past ↦ ground arith
    | inr inside ↦ let runs : below i n ≡ true = (root i).1 (ground arith) in absurd (cc)
  ]

  -- The loop ends with all multiples of the numbers below some `m` marked, and `m` passes the root.
  record Finished (a' : BitArray) (m : ℕ) : Type 0 where
    sieved : Sieved n m a'
    past : n ≤ (m - 1) * (m - 1)
    from : 2 ≤ m

  sieve_loop_lem :
      (fuel i : ℕ) (a : BitArray)
      → Sieved n i a
      → 2 ≤ i
      → 0 < fuel
      → n < fuel + i
      → (a' : BitArray) × (m : ℕ) × (sieve_loop below fuel i a ≡ some a') × Finished a' m
  unfolding sieve_loop
  sieve_loop_lem zero i a v from g f = absurd (omega arith)
  sieve_loop_lem (suc fuel) i a v from g f = elim (Bool-cases (below i n)) [
    | inr ends ↦
        let t : below i a.size ≡ false = rw v.size ends in
        (a, i, ground (arith, t), record { sieved = v; past = passed i ends; from = from })
    | inl runs ↦
        let t : below i a.size ≡ true = rw v.size runs in
        let inside : i < n = running-lt i from ((root i).0 runs) in
        let at : bit_array_getbit a i ≡ some (bit a i) =
          getbit-eq_bit a i v.room (omega (arith, v.size, inside)) in
        elim (Bool-cases (bit a i)) [
          | inl marked ↦
              let (a', m, e, z) =
                sieve_loop_lem fuel (suc i) a (marked-Sieved n i v from marked) (omega arith)
                  (omega arith) (omega arith) in
              (a', m, ground (arith, t, at, marked, e), z)
          | inr prime ↦
              let (b, e, c) =
                cross_out-Crossed (suc a.size) i 2 a v.room (omega arith) (omega arith)
                  (omega arith) in
              let (a', m, e', z) =
                sieve_loop_lem fuel (suc i) b (Crossed-Sieved n i v from c) (omega arith)
                  (omega arith) (omega arith) in
              (a', m, ground (arith, t, at, prime, e, e'), z)
        ]
  ]

  -- A product that is below the square of `m - 1` has a factor below `m`.
  small_factor :
      (m d e k : ℕ)
      → 2 ≤ m
      → n ≤ (m - 1) * (m - 1)
      → k < n
      → 2 ≤ d
      → 2 ≤ e
      → k ≡ d * e
      → Divided m k
  small_factor m d e k h past lt p q s = elim (Bool-cases (ltb d m)) [
    | inl small ↦ (d, e, p, ground arith, q, s)
    | inr large_d ↦ elim (Bool-cases (ltb e m)) [
      | inl small ↦ (e, d, q, ground arith, p, s ∙ mul_comm d e)
      | inr large_e ↦
          let d_ge : m - 1 ≤ d = ground arith in
          let e_ge : m - 1 ≤ e = ground arith in
          absurd (omega (arith, past, mul-le-mul d_ge e_ge, lt, s))
    ]
  ]

  start-Sieved : (b c : BitArray) → Sets (bit_array_create n) 0 b → Sets b 1 c → Sieved n 2 c
  start-Sieved b c s t = record {
    size = t.size ∙ s.size ∙ create-size n;
    room = t.room;
    marks = λ k lt (d, e, p, q, r, z). absurd (omega (arith, p, q));
    only = λ k l z. absurd (ground (arith, s.bits k, t.bits k, create-clear n k));
  }

  module _ (k : ℕ) (from : 2 ≤ k) (lt : k < n) (a : BitArray) (m : ℕ) (z : Finished a m) where
    read : bit_array_getbit a k ≡ some (bit a k)
    read = getbit-eq_bit a k z.sieved.room (omega (arith, z.sieved.size, lt))

    IsPrime-of_clear : bit_array_getbit a k ≡ some false → IsPrime k
    IsPrime-of_clear h d e p q s =
        let clear : bit a k ≡ false = ground (arith, read, h) in
        let marked : bit a k ≡ true =
          z.sieved.marks k lt (small_factor m d e k z.from z.past lt p q s) in
        absurd (cc)

    clear-of_IsPrime : IsPrime k → bit_array_getbit a k ≡ some false
    clear-of_IsPrime h = elim (Bool-cases (bit a k)) [
      | inr clear ↦ ground (arith, read, clear)
      | inl marked ↦ let (d, e, p, q, r, s) = z.sieved.only k from marked in absurd (h d e p r s)
    ]

  sieved_array :
      (a : BitArray) × (m : ℕ) × (eratosthenes below (bit_array_create n) ≡ some a) × Finished a m
  unfolding eratosthenes
  sieved_array =
      let (b, e, s) =
        setbit-Sets (bit_array_create n) 0 (create-Room n) (omega (arith, create-size n, large)) in
      let (c, e', t) = setbit-Sets b 1 s.room (omega (arith, s.size, create-size n, large)) in
      let (a, m, e'', z) =
        sieve_loop_lem (suc c.size) 2 c (start-Sieved b c s t) (omega arith) (omega arith)
          (omega (arith, t.size, s.size, create-size n)) in
      (a, m, ground (arith, e, e', e''), z)

  -- From 3 numbers on, and if the comparison with `sqrt` is exact, `Eratosthenes` of a new array ends without
  -- an index out of range, and the bit of a number from 2 on is 0 exactly when the number is prime.
  pub eratosthenes_lem :
      (k : ℕ)
      → 2 ≤ k
      → k < n
      → (a : BitArray) × (eratosthenes below (bit_array_create n) ≡ some a)
        × ((bit_array_getbit a k ≡ some false) ↔ IsPrime k)
  eratosthenes_lem k from lt =
      let (a, m, e, z) = sieved_array in
      (a, e, (IsPrime-of_clear k from lt a m z, clear-of_IsPrime k from lt a m z))

  -- The bit of each number is read, and decides whether it is prime.
  pub eratosthenes_decides :
      (a : BitArray) × (eratosthenes below (bit_array_create n) ≡ some a)
      × ((k : ℕ)
          → 2 ≤ k
          → k < n
          → ((bit_array_getbit a k ≡ some false) × IsPrime k)
            ⊎ ((bit_array_getbit a k ≡ some true) × ¬ IsPrime k))
  eratosthenes_decides =
      let (a, m, e, z) = sieved_array in
      (
        a,
        e,
        λ k from lt. elim (Bool-cases (bit a k)) [
          | inl marked ↦
              let at : bit_array_getbit a k ≡ some true = read k from lt a m z ∙ ap some marked in
              inr (at, λ h. absurd (ground (arith, at, clear-of_IsPrime k from lt a m z h)))
          | inr clear ↦
              let at : bit_array_getbit a k ≡ some false = read k from lt a m z ∙ ap some clear in
              inl (at, IsPrime-of_clear k from lt a m z at)
        ],
      )
