-- ===== src/Sieve/Steg/Text.antt =====
-- The text that steg-decode prints, by the prime numbers.
use school_projects.Base.{
  ℕ, zero, suc, ◌+◌, ◌-◌, ◌*◌, ◌%◌, ◌≤◌, ◌<◌, ◌≡◌, ◌⊎◌, ◌↔◌, refl, sym, ap, ◌∙◌, arith, Bool, true,
  false, Option-cases, inl, inr, Option, some, List, [], ◌∷◌, ◌++◌, get_elem?,
}
use school_projects.Sieve.{BitArray, bit_array_getbit}
use school_projects.Sieve.Primes.{IsPrime, eratosthenes_decides}
use school_projects.Sieve.Decode.{samples, spelled, AllBytes, decode-spelled}
use school_projects.Sieve.Picture.{Ppm, ppm_read}
use school_projects.Sieve.Steg.{ended, exit_of, decode_picture, steg_decode}

-- The lowest bits of the picture at the primes among the `left` numbers from `i` on.
abbrev pub PrimeBits : (picture : List ℕ) → (left i : ℕ) → List ℕ → Type 0
PrimeBits picture zero i bits = bits ≡ []
PrimeBits picture (suc left) i bits =
    (IsPrime i
      × (pixel : ℕ) × (get_elem? picture i ≡ some pixel)
      × (later : List ℕ) × (bits ≡ pixel % 2 ∷ later)
      × PrimeBits picture left (suc i) later)
    ⊎ ((¬ IsPrime i) × PrimeBits picture left (suc i) bits)

some_inj : {A : Type 0} {x y : A} → some x ≡ some y → x ≡ y
some_inj e = cc

module _ (a : BitArray) (n : ℕ)
    (decides : (k : ℕ)
      → 2 ≤ k
      → k < n
      → ((bit_array_getbit a k ≡ some false) × IsPrime k)
        ⊎ ((bit_array_getbit a k ≡ some true) × ¬ IsPrime k))
    (picture : List ℕ) where
  samples-of_PrimeBits :
      (left i : ℕ) (bits : List ℕ)
      → 2 ≤ i
      → left + i ≤ n
      → PrimeBits picture left i bits
      → samples a picture left i ≡ some bits
  unfolding samples
  samples-of_PrimeBits zero i bits from fits none_left = ap some (sym none_left)
  samples-of_PrimeBits (suc left) i bits from fits found = elim found [
    | inl (prime, pixel, at, later, e, rest) ↦
        let ih = samples-of_PrimeBits left (suc i) later (omega arith) (omega arith) rest in
        elim (decides i from (omega arith)) [
          | inl (clear, is) ↦ simp (clear, ih, at) (ap some (sym e))
          | inr (marked, composite) ↦ absurd (composite prime)
        ]
    | inr (other, rest) ↦
        let ih = samples-of_PrimeBits left (suc i) bits (omega arith) (omega arith) rest in
        elim (decides i from (omega arith)) [
          | inl (clear, is) ↦ absurd (other is)
          | inr (marked, composite) ↦ simp (marked, ih) refl
        ]
  ]

  pub PrimeBits-of_samples :
      (left i : ℕ) (bits : List ℕ)
      → 2 ≤ i
      → left + i ≤ n
      → samples a picture left i ≡ some bits
      → PrimeBits picture left i bits
  unfolding samples
  PrimeBits-of_samples zero i bits from fits e = cc
  PrimeBits-of_samples (suc left) i bits from fits e = elim (decides i from (omega arith)) [
    | inl (clear, prime) ↦ elim (Option-cases (samples a picture left (suc i))) [
      | inl fails ↦ absurd (ground (arith, clear, fails, e))
      | inr (later, rest) ↦ elim (Option-cases (get_elem? picture i)) [
        | inl outside ↦ absurd (ground (arith, clear, rest, outside, e))
        | inr (pixel, at) ↦
            let same : some bits ≡ some (pixel % 2 ∷ later) =
              sym e ∙ ground (arith, clear, rest, at) in
            let ih = PrimeBits-of_samples left (suc i) later (omega arith) (omega arith) rest in
            inl (prime, pixel, at, later, some_inj same, ih)
      ]
    ]
    | inr (marked, composite) ↦ elim (Option-cases (samples a picture left (suc i))) [
      | inl fails ↦ absurd (ground (arith, marked, fails, e))
      | inr (later, rest) ↦
          let same : some later ≡ some bits = ground (arith, marked, rest, e) in
          inr (
            composite,
            PrimeBits-of_samples left (suc i) bits (omega arith) (omega arith) (rest ∙ same),
          )
    ]
  ]

module _ (below : ℕ → ℕ → Bool) (limit : ℕ) (large : 11 ≤ limit)
    (root : (i : ℕ) → (below i limit ≡ true) ↔ ((i - 1) * (i - 1) < limit)) where
  -- If the root is exact, the file holds a picture, and its lowest bits at the prime numbers from 11 to LIMIT
  -- spell a text without zeros, the lowest bit of each byte first, and a zero, whatever comes after, the
  -- program prints the text, the zero and a new line, and gives no warning.
  pub steg_decode_lem :
      (scan : List ℕ → Option (ℕ × ℕ × List ℕ)) (allocated : ℕ → Bool)
      (open_file : List ℕ → Option (List ℕ)) (name : List ℕ) (p : Ppm) (text rest : List ℕ)
      → (ppm_read scan allocated (open_file name)).picture ≡ some p
      → AllBytes text
      → PrimeBits p.data_ (limit - 11) 11 (spelled text ++ rest)
      → steg_decode below scan allocated open_file limit (name ∷ [])
        ≡ ended (text ++ 0 ∷ 10 ∷ []) true
  unfolding steg_decode decode_picture
  steg_decode_lem scan allocated open_file name p text rest read bytes hidden =
      let (a, sieved, decides) = eratosthenes_decides below limit (omega arith) root in
      let decoded = decode-spelled a p.data_ (limit - 11) text rest bytes (
        samples-of_PrimeBits a limit decides p.data_ (limit - 11) 11 (spelled text ++ rest)
          (omega arith) (omega arith) hidden) in
      simp (read, sieved) (ap exit_of decoded)
