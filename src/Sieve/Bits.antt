-- ===== src/Sieve/Bits.antt =====
-- The bits of an array by their indices.
use school_projects.Base.{
  ℕ, zero, suc, ◌+◌, ◌-◌, ◌*◌, ◌/◌, ◌%◌, ◌≤◌, ◌<◌, ◌≡◌, ◌≢◌, refl, ap, arith, ◌==◌, if◌then◌else◌,
  Bool, true, false, Option, none, some, List, [], ◌∷◌, length, get_elem?, set, inl, inr,
  Bool-cases, length-set, get_elem?-set_self, get_elem?-set_ne, get_elem?-of_lt,
}
use school_projects.Sieve.{
  Word, word_bits, BitArray, copies, bit_array_create, with_bit, bit_array_setbit, bit_array_getbit,
}

bit_of : Option Word → ℕ → Bool
bit_of none k = false
bit_of (some w) k = w k

-- The bit `k`, 0 outside the array.
pub bit : BitArray → ℕ → Bool
unfolding bit_of
bit a k = bit_of (get_elem? a.words (k / word_bits)) (k % word_bits)

-- There is a bit for every index.
abbrev pub Room : BitArray → Type 0
Room a = a.size ≤ word_bits * length a.words

pub getbit-eq_bit :
    (a : BitArray) (k : ℕ) → Room a → k < a.size → bit_array_getbit a k ≡ some (bit a k)
unfolding bit_array_getbit bit
getbit-eq_bit a k r lt =
    let (w, e) = get_elem?-of_lt a.words (k / word_bits) (omega arith) in ground (arith, e)

-- `a'` is `a` but for the bit `index`, which is 1.
pub record Sets (a : BitArray) (index : ℕ) (a' : BitArray) : Type 0 where
  pub size : a'.size ≡ a.size
  pub room : Room a'
  pub bits : (k : ℕ) → bit a' k ≡ (if k == index then true else bit a k)

module _ (a : BitArray) (index : ℕ) (w : Word) (at : get_elem? a.words (index / word_bits) ≡ some w)
    (inside : index / word_bits < length a.words) where
  written : BitArray
  written = record a { words = set a.words (index / word_bits) (with_bit w (index % word_bits)) }

  bits_same :
      (k : ℕ)
      → k / word_bits ≡ index / word_bits
      → bit written k ≡ (if k == index then true else bit a k)
  unfolding bit written bit_of
  bits_same k e = rw e (
      ground (
        arith,
        at,
        get_elem?-set_self a.words (index / word_bits) (with_bit w (index % word_bits)) inside,
      ))

  bits_other :
      (k : ℕ)
      → k / word_bits ≢ index / word_bits
      → bit written k ≡ (if k == index then true else bit a k)
  unfolding bit written
  bits_other k ne = ground (
    arith,
    get_elem?-set_ne a.words (index / word_bits) (k / word_bits) (with_bit w (index % word_bits)),
  )

  written-Sets : Room a → Sets a index written
  unfolding written
  written-Sets r = record {
    size = refl;
    room = omega (arith, length-set a.words (index / word_bits) (with_bit w (index % word_bits)));
    bits = λ k. elim (Bool-cases (k / word_bits == index / word_bits)) [
      | inl same ↦ bits_same k (ground arith)
      | inr other ↦ bits_other k (ground arith)
    ];
  }

pub setbit-Sets :
    (a : BitArray) (index : ℕ)
    → Room a
    → index < a.size
    → (a' : BitArray) × (bit_array_setbit a index true ≡ some a') × Sets a index a'
unfolding bit_array_setbit written
setbit-Sets a index r lt =
    let (w, e) = get_elem?-of_lt a.words (index / word_bits) (omega arith) in
    (written a index w e (omega arith), ground (arith, e), written-Sets a index w e (omega arith) r)

set_same : (xs : List Word) (i : ℕ) (w : Word) → get_elem? xs i ≡ some w → set xs i w ≡ xs
set_same [] i w h = refl
set_same (x ∷ xs) zero w h = cc
set_same (x ∷ xs) (suc i) w h = ap (λ (ys : List Word). x ∷ ys) (set_same xs i w h)

-- With the value 0 `bit_array_setbit` changes nothing, so that no bit can be cleared.
pub setbit_keeps :
    (a : BitArray) (index : ℕ) → Room a → index < a.size → bit_array_setbit a index false ≡ some a
unfolding bit_array_setbit
setbit_keeps a index r lt =
    let (w, e) = get_elem?-of_lt a.words (index / word_bits) (omega arith) in
    ground (arith, e, set_same a.words (index / word_bits) w)

length-copies : (n : ℕ) (w : Word) → length (copies n w) ≡ n
length-copies zero w = refl
length-copies (suc n) w = ap suc (length-copies n w)

pub create-size : (n : ℕ) → (bit_array_create n).size ≡ n
unfolding bit_array_create
create-size n = refl

-- The words that `bit_array_create` declares are enough.
pub create-Room : (n : ℕ) → Room (bit_array_create n)
unfolding bit_array_create
create-Room n =
    ground (arith, length-copies (n / 8 * 8 + (if n % 8 * 8 == 0 then 1 else 2) - 1) (λ k. false))

copies_at : (n i k : ℕ) → bit_of (get_elem? (copies n (λ j. false)) i) k ≡ false
unfolding bit_of
copies_at zero i k = refl
copies_at (suc n) zero k = refl
copies_at (suc n) (suc i) k = copies_at n i k

pub create-clear : (n k : ℕ) → bit (bit_array_create n) k ≡ false
unfolding bit bit_array_create
create-clear n k =
    copies_at (n / 8 * 8 + (if n % 8 * 8 == 0 then 1 else 2) - 1) (k / word_bits) (k % word_bits)
