-- ===== src/Sieve/Tests.antt =====
-- The sieve of the numbers below 30, with an exact root.
use school_projects.Base.{
  ℕ, zero, suc, Option, set, sym, ap, ◌∙◌, ◌++◌, ◌==◌, ◌-◌, ◌*◌, ◌<◌, ◌≡◌, ◌↔◌, refl, arith, ltb,
  Bool, true, false, none, some, List, [], ◌∷◌,
}
use school_projects.Sieve.{
  BitArray, bit_array_create, bit_array_setbit, bit_array_getbit, cross_out, sieve_loop,
  eratosthenes, last_primes, ◌>>=◌,
}
use school_projects.Base.Int.{pos}
use school_projects.Sieve.Picture.{Ppm, Written, ppm_read, ppm_write, read_header, read_data}
use school_projects.Sieve.Picture.Files.{skip_spaces, ppm_read-ppm_write}
use school_projects.Sieve.Steg.{steg_decode, ended}
use school_projects.Sieve.Steg.Text.{PrimeBits, PrimeBits-of_samples, steg_decode_lem}
use school_projects.Sieve.Decode.{spelled, samples}
use school_projects.Sieve.Primes.{IsPrime, eratosthenes_lem, eratosthenes_decides}

abbrev below : ℕ → ℕ → Bool
below i n = ltb ((i - 1) * (i - 1)) n

below_root : (n i : ℕ) → (below i n ≡ true) ↔ ((i - 1) * (i - 1) < n)
below_root n i = ((λ h. ground arith), λ h. ground arith)

eratosthenes_lem_example :
    (a : BitArray) × (eratosthenes below (bit_array_create 30) ≡ some a)
    × ((bit_array_getbit a 7 ≡ some false) ↔ IsPrime 7)
eratosthenes_lem_example =
    eratosthenes_lem below 30 (omega arith) (below_root 30) 7 (omega arith) (omega arith)

sieve_below_30 :
    (eratosthenes below (bit_array_create 30) >>= λ a. last_primes a 29 10 [])
    ≡ some (2 ∷ 3 ∷ 5 ∷ 7 ∷ 11 ∷ 13 ∷ 17 ∷ 19 ∷ 23 ∷ 29 ∷ [])
unfolding eratosthenes sieve_loop cross_out bit_array_setbit bit_array_getbit bit_array_create
    last_primes
sieve_below_30 = refl

-- With two numbers the first round of the loop is out of range.
sieve_of_two : eratosthenes below (bit_array_create 2) ≡ none
unfolding eratosthenes sieve_loop cross_out bit_array_setbit bit_array_getbit bit_array_create
sieve_of_two = refl

-- Clear bits only, and a picture that spells one letter from the index 11 on.
abbrev picture : List ℕ
picture =
    0 ∷ 0 ∷ 0 ∷ 0 ∷ 0 ∷ 0 ∷ 0 ∷ 0 ∷ 0 ∷ 0 ∷ 0 ∷ 7 ∷ 4 ∷ 2 ∷ 0 ∷ 0 ∷ 9 ∷ 5 ∷ 0 ∷ 2 ∷ 4 ∷ 6 ∷ 8 ∷ 0
    ∷ 0 ∷ 0 ∷ 0 ∷ 1 ∷ []

-- Files whose header is the two numbers, and the space with the code 32.
abbrev header : ℕ → ℕ → List ℕ
header x y = x ∷ y ∷ []

abbrev isspace : ℕ → Bool
isspace b = b == 32

abbrev scan : List ℕ → Option (ℕ × ℕ × List ℕ)
scan (x ∷ y ∷ bytes) = some (x, y, skip_spaces isspace bytes)
scan _ = none

abbrev enough : ℕ → Bool
enough n = true

abbrev one_pixel : Ppm
one_pixel = record { xsize = 1; ysize = 1; data_ = 32 ∷ 8 ∷ 9 ∷ [] }

ppm_read-ppm_write_example :
    (w : Written) × (ppm_write header true one_pixel ≡ some w)
    × (w.result ≡ pos 0)
    × (w.freed ≡ true)
    × (ppm_read scan enough (some w.content) ≡ record { picture = none; left_open = false })
ppm_read-ppm_write_example =
    ppm_read-ppm_write scan header isspace enough (λ x y bytes below_x below_y. refl) one_pixel
      (omega arith, omega arith, refl) refl

-- A picture of 24 pixels that hides one letter.
abbrev blank : ℕ → List ℕ
blank zero = []
blank (suc k) = 0 ∷ blank k

abbrev hiding : List ℕ
hiding = set (set (set (blank 72) 11 1) 29 1) 31 1

abbrev hiding_picture : Ppm
hiding_picture = record { xsize = 24; ysize = 1; data_ = hiding }

abbrev hiding_file : List ℕ → Option (List ℕ)
hiding_file name = some (24 ∷ 1 ∷ hiding)

hidden_samples :
    (eratosthenes below (bit_array_create 72) >>= λ a. samples a hiding 61 11)
    ≡ some (spelled (97 ∷ []) ++ [])
unfolding eratosthenes sieve_loop cross_out bit_array_setbit bit_array_getbit bit_array_create
    samples
hidden_samples = refl

hiding-PrimeBits : PrimeBits hiding 61 11 (spelled (97 ∷ []) ++ [])
hiding-PrimeBits =
    let (a, sieved, decides) = eratosthenes_decides below 72 (omega arith) (below_root 72) in
    PrimeBits-of_samples a 72 decides hiding 61 11 (spelled (97 ∷ []) ++ []) (omega arith)
      (omega arith) (sym (ap (λ o. o >>= λ a. samples a hiding 61 11) sieved) ∙ hidden_samples)

hiding_read : (ppm_read scan enough (hiding_file [])).picture ≡ some hiding_picture
unfolding ppm_read read_header read_data
hiding_read = refl

steg_decode_lem_example :
    steg_decode below scan enough hiding_file 72 ([] ∷ []) ≡ ended (97 ∷ 0 ∷ 10 ∷ []) true
steg_decode_lem_example =
    steg_decode_lem below 72 (omega arith) (below_root 72) scan enough hiding_file [] hiding_picture
      (97 ∷ []) [] hiding_read (omega arith, omega arith, tt) hiding-PrimeBits
