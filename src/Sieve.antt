-- ===== src/Sieve.antt =====
-- The bit array of sem_2/ijc/proj_1/bit_array.h and the sieve of eratosthenes.c. An `unsigned long` of the
-- array is given by its 64 bits, the lowest one first; the one that holds the size is a field.
pub mod Bits
pub mod Marks
pub mod Primes
pub mod Decode
pub mod Picture
pub mod Steg
mod Tests
use school_projects.Base.{
  ℕ, zero, suc, ◌+◌, ◌-◌, ◌*◌, ◌/◌, ◌%◌, ◌==◌, ltb, if◌then◌else◌, Bool, true, false, Option, none,
  some, List, [], ◌∷◌, length, get_elem?, set,
}

abbrev pub Word : Type 0
Word = ℕ → Bool

-- `sizeof(unsigned long) * CHAR_BIT`
abbrev pub word_bits : ℕ
word_bits = 64

pub record BitArray : Type 0 where
  pub size : ℕ
  pub words : List Word

abbrev pub copies : ℕ → Word → List Word
copies zero w = []
copies (suc n) w = w ∷ copies n w

-- The array has one word less than the macro declares, since the size is not in the list. In the macro
-- `CHAR_BIT` multiplies what the division by `sizeof(unsigned long)` gives.
unfoldable pub bit_array_create : ℕ → BitArray
bit_array_create velikost = record {
  size = velikost;
  words = copies (velikost / 8 * 8 + (if velikost % 8 * 8 == 0 then 1 else 2) - 1) (λ k. false);
}

-- `w | 1 << k`
abbrev pub with_bit : Word → ℕ → Word
with_bit w k = λ j. if j == k then true else w j

-- `none` is `error_exit`, an access outside the array, or a loop that has used up its fuel. Where `vyraz` is
-- 0 the word is masked by ~(0 << k), which has all bits.
unfoldable pub bit_array_setbit : BitArray → (index : ℕ) → (vyraz : Bool) → Option BitArray
bit_array_setbit a index vyraz =
    if ltb index a.size
    then elim (get_elem? a.words (index / word_bits)) [
      | none ↦ none
      | some w ↦ some (record a {
        words =
            set a.words (index / word_bits) (if vyraz then with_bit w (index % word_bits) else w);
      })
    ]
    else none

unfoldable pub bit_array_getbit : BitArray → (index : ℕ) → Option Bool
bit_array_getbit a index =
    if ltb index a.size
    then elim (get_elem? a.words (index / word_bits)) [
      | none ↦ none
      | some w ↦ some (w (index % word_bits))
    ]
    else none

infixl 5 ◌>>=◌
abbrev pub ◌>>=◌ : {A B : Type 0} → Option A → (A → Option B) → Option B
none >>= f = none
some a >>= f = f a

-- `for (; i * j < velikost; j++)`
unfoldable pub cross_out : ℕ → (i j : ℕ) → BitArray → Option BitArray
cross_out zero i j a = none
cross_out (suc fuel) i j a = elim (ltb (i * j) a.size) [
  | false ↦ some a
  | true ↦ bit_array_setbit a (i * j) true >>= cross_out fuel i (suc j)
]

-- `below i n` stands for `i < sqrt(n) + 1`.
module _ (below : ℕ → ℕ → Bool) where
  -- `for (; i < (sqrt(velikost) + 1); i++)`
  unfoldable pub sieve_loop : ℕ → (i : ℕ) → BitArray → Option BitArray
  sieve_loop zero i a = none
  sieve_loop (suc fuel) i a = elim (below i a.size) [
    | false ↦ some a
    | true ↦ do
      b ← bit_array_getbit a i
      a' ← (if b then some a else cross_out (suc a.size) i 2 a)
      sieve_loop fuel (suc i) a'
  ]

  unfoldable pub eratosthenes : BitArray → Option BitArray
  eratosthenes a = do
    b ← bit_array_setbit a 0 true
    c ← bit_array_setbit b 1 true
    sieve_loop (suc a.size) 2 c

-- The loops of `main` in primes.c: the last `n` numbers from `k` down whose bit is 0, in ascending order.
unfoldable pub last_primes : BitArray → (k n : ℕ) → (found : List ℕ) → Option (List ℕ)
last_primes a zero n found = some found
last_primes a (suc k) n found = do
  b ← bit_array_getbit a (suc k)
  let now = if b then found else suc k ∷ found
  let left = if b then n else n - 1
  elim (left == 0) [ true ↦ some now | false ↦ last_primes a k left now ]
