-- ===== src/Sieve/Decode.antt =====
-- The loop of `main` in sem_2/ijc/proj_1/steg-decode.c, which reads a text from a picture.
use school_projects.Base.{
  ℕ, zero, suc, ◌+◌, ◌*◌, ◌/◌, ◌%◌, ◌^◌, ◌<◌, ◌≡◌, refl, ap, ◌∙◌, arith, ◌==◌, if◌then◌else◌, Bool,
  true, false, Bool-cases, Option-cases, inl, inr, Option, some, List, [], ◌∷◌, ◌++◌, append_assoc,
  get_elem?,
}
use school_projects.Sieve.{BitArray, bit_array_getbit, ◌>>=◌}

-- A bit of the text has been read with `bits` bits in `result`: either the byte goes on, or it is printed.
-- The second component tells whether the text has ended; a `\0` is printed, and a new line.
unfoldable pub take_bit :
    (bit : ℕ)
    → (bits result : ℕ) → (out : List ℕ) → ((bits result : ℕ) → List ℕ → Option (List ℕ × Bool))
    → Option (List ℕ × Bool)
take_bit bit bits result out more =
    let result' = result + bit * 2 ^ bits in
    if bits == 7
    then (if result' == 0 then some (out ++ 0 ∷ 10 ∷ [], true) else more 0 0 (out ++ result' ∷ []))
    else more (suc bits) result' out

-- `left` rounds are left of the loop over `i`; at their end `warning_msg` is called. `none` is a read outside
-- the picture or the bit array.
unfoldable pub decode :
    BitArray
    → (picture : List ℕ) → (left i bits result : ℕ) → (out : List ℕ) → Option (List ℕ × Bool)
decode a picture zero i bits result out = some (out, false)
decode a picture (suc left) i bits result out = do
  marked ← bit_array_getbit a i
  elim marked [
    | true ↦ decode a picture left (suc i) bits result out
    | false ↦ do
      pixel ← get_elem? picture i
      take_bit (pixel % 2) bits result out (λ b r o. decode a picture left (suc i) b r o)
  ]

-- The lowest bits of the picture at the indices that the sieve leaves.
unfoldable pub samples : BitArray → (picture : List ℕ) → (left i : ℕ) → Option (List ℕ)
samples a picture zero i = some []
samples a picture (suc left) i = do
  marked ← bit_array_getbit a i
  rest ← samples a picture left (suc i)
  elim marked [ true ↦ some rest | false ↦ do pixel ← get_elem? picture i; some (pixel % 2 ∷ rest) ]

collect : List ℕ → (bits result : ℕ) → (out : List ℕ) → Option (List ℕ × Bool)
collect [] bits result out = some (out, false)
collect (bit ∷ rest) bits result out = take_bit bit bits result out (λ b r o. collect rest b r o)

take_bit-same :
    (bit bits result : ℕ) (out : List ℕ) (k k' : (b r : ℕ) → List ℕ → Option (List ℕ × Bool))
    → ((b r : ℕ) (o : List ℕ) → k b r o ≡ k' b r o)
    → take_bit bit bits result out k ≡ take_bit bit bits result out k'
unfolding take_bit
take_bit-same bit bits result out k k' h = ground (
  arith,
  h 0 0 (out ++ (result + bit * 2 ^ bits) ∷ []),
  h (suc bits) (result + bit * 2 ^ bits) out,
)

decode-collect :
    (a : BitArray) (picture : List ℕ) (left i bits result : ℕ) (out : List ℕ) (bs : List ℕ)
    → samples a picture left i ≡ some bs
    → decode a picture left i bits result out ≡ collect bs bits result out
unfolding samples decode collect
decode-collect a picture zero i bits result out bs h =
    let none_left : bs ≡ [] = cc in rw none_left refl
decode-collect a picture (suc left) i bits result out bs h =
    elim (Option-cases (bit_array_getbit a i)) [
      | inl outside ↦ absurd (ground (arith, outside, h))
      | inr (marked, at) ↦ elim (Option-cases (samples a picture left (suc i))) [
        | inl fails ↦ absurd (ground (arith, at, fails, h))
        | inr (rest, later) ↦ elim (Bool-cases marked) [
          | inl skip ↦
              let same : rest ≡ bs = ground (arith, at, later, skip, h) in
              ground (
                arith,
                at,
                skip,
                decode-collect a picture left (suc i) bits result out bs (later ∙ ap some same),
              )
          | inr taken ↦ elim (Option-cases (get_elem? picture i)) [
            | inl beyond ↦ absurd (ground (arith, at, later, taken, beyond, h))
            | inr (pixel, there) ↦
                let same : pixel % 2 ∷ rest ≡ bs = ground (arith, at, later, taken, there, h) in
                let go =
                  take_bit-same (pixel % 2) bits result out
                    (λ b r o. decode a picture left (suc i) b r o) (λ b r o. collect rest b r o)
                    (λ b r o. decode-collect a picture left (suc i) b r o rest later) in
                let clear : bit_array_getbit a i ≡ some false = at ∙ ap some taken in
                rw (← same) (rw clear (rw there go))
          ]
        ]
      ]
    ]

-- The bits of a byte, the lowest first, and of a text with a zero behind it.
abbrev pub byte_bits : ℕ → List ℕ
byte_bits b =
    b % 2
    ∷ b / 2 % 2
    ∷ b / 4 % 2
    ∷ b / 8 % 2
    ∷ b / 16 % 2
    ∷ b / 32 % 2
    ∷ b / 64 % 2
    ∷ b / 128 % 2
    ∷ []

abbrev pub spelled : List ℕ → List ℕ
spelled [] = byte_bits 0
spelled (b ∷ text) = byte_bits b ++ spelled text

abbrev pub AllBytes : List ℕ → Type 0
AllBytes [] = Unit
AllBytes (b ∷ text) = (0 < b) × (b < 256) × AllBytes text

byte_value :
    (b : ℕ)
    → b < 256
    → 0
        + b % 2 * 1
        + b / 2 % 2 * 2
        + b / 4 % 2 * 4
        + b / 8 % 2 * 8
        + b / 16 % 2 * 16
        + b / 32 % 2 * 32
        + b / 64 % 2 * 64
        + b / 128 % 2 * 128
      ≡ b
byte_value b h = omega arith

collect_byte :
    (b : ℕ) (rest out : List ℕ)
    → 0 < b
    → b < 256
    → collect (byte_bits b ++ rest) 0 0 out ≡ collect rest 0 0 (out ++ b ∷ [])
unfolding collect take_bit
collect_byte b rest out pos small =
    let ne : (b == 0) ≡ false = ground arith in simp (byte_value b small) (simp ne refl)

collect_end :
    (rest out : List ℕ) → collect (byte_bits 0 ++ rest) 0 0 out ≡ some (out ++ 0 ∷ 10 ∷ [], true)
unfolding collect take_bit
collect_end rest out = refl

collect_text :
    (text rest out : List ℕ)
    → AllBytes text
    → collect (spelled text ++ rest) 0 0 out ≡ some (out ++ (text ++ 0 ∷ 10 ∷ []), true)
collect_text [] rest out h = collect_end rest out
collect_text (b ∷ text) rest out h =
    ap (λ (bs : List ℕ). collect bs 0 0 out) (append_assoc (byte_bits b) (spelled text) rest)
    ∙ (collect_byte b (spelled text ++ rest) out h.0 h.1
        ∙ (collect_text text rest (out ++ b ∷ []) h.2
            ∙ ap (λ (o : List ℕ). some (o, true))
                (append_assoc out (b ∷ []) (text ++ 0 ∷ 10 ∷ []))))

-- If the lowest bits of the picture at the indices from 11 on that the array leaves clear are those of a text
-- without zeros, the lowest bit of each byte first, and of a zero, whatever comes after, the loop prints the
-- text, the zero and a new line, and gives no warning.
pub decode-spelled :
    (a : BitArray) (picture : List ℕ) (left : ℕ) (text rest : List ℕ)
    → AllBytes text
    → samples a picture left 11 ≡ some (spelled text ++ rest)
    → decode a picture left 11 0 0 [] ≡ some (text ++ 0 ∷ 10 ∷ [], true)
decode-spelled a picture left text rest h e =
    decode-collect a picture left 11 0 0 [] (spelled text ++ rest) e ∙ collect_text text rest [] h
