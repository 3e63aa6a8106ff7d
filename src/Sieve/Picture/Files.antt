-- ===== src/Sieve/Picture/Files.antt =====
-- A picture that is written to a file and read back.
use school_projects.Base.{
  ℕ, ◌^◌, ◌≤◌, ◌<◌, ◌≡◌, refl, sym, ap, ◌∙◌, arith, Bool, true, false, Bool-cases, inl, inr, Option,
  none, some, List, [], ◌∷◌, ◌++◌, length, ltb, if◌then◌else◌,
}
use school_projects.Base.Int.{pos}
use school_projects.Sieve.Picture.{
  Ppm, memory, take, Reading, Written, read_data, read_header, ppm_read, ppm_write,
}

take_all : (bytes : List ℕ) → take (length bytes) bytes ≡ bytes
take_all [] = refl
take_all (b ∷ bytes) = ap (λ r. b ∷ r) (take_all bytes)

-- What the last space of the format of `fscanf` does to the bytes that follow.
abbrev pub skip_spaces : (ℕ → Bool) → List ℕ → List ℕ
skip_spaces isspace [] = []
skip_spaces isspace (b ∷ bytes) = if isspace b then skip_spaces isspace bytes else b ∷ bytes

abbrev pub begins_with_space : (ℕ → Bool) → List ℕ → Bool
begins_with_space isspace [] = false
begins_with_space isspace (b ∷ bytes) = isspace b

length-skip_spaces :
    (isspace : ℕ → Bool) (bytes : List ℕ) → length (skip_spaces isspace bytes) ≤ length bytes
length-skip_spaces isspace [] = omega arith
length-skip_spaces isspace (b ∷ bytes) = ground (arith, length-skip_spaces isspace bytes)

skip_spaces-none :
    (isspace : ℕ → Bool) (bytes : List ℕ)
    → begins_with_space isspace bytes ≡ false
    → skip_spaces isspace bytes ≡ bytes
skip_spaces-none isspace [] h = refl
skip_spaces-none isspace (b ∷ bytes) h = rw h refl

skip_spaces-shorter :
    (isspace : ℕ → Bool) (bytes : List ℕ)
    → begins_with_space isspace bytes ≡ true
    → length (skip_spaces isspace bytes) < length bytes
skip_spaces-shorter isspace [] h = absurd cc
skip_spaces-shorter isspace (b ∷ bytes) h = rw h (omega (arith, length-skip_spaces isspace bytes))

module _ (scan : List ℕ → Option (ℕ × ℕ × List ℕ)) (header : ℕ → ℕ → List ℕ)
    (isspace : ℕ → Bool) where
  -- `fscanf` reads the numbers that `fprintf` has printed, and then skips spaces.
  abbrev pub Scans : Type 0
  Scans =
      (x y : ℕ) (bytes : List ℕ)
      → x < 2 ^ 32
      → y < 2 ^ 32
      → scan (header x y ++ bytes) ≡ some (x, y, skip_spaces isspace bytes)

  abbrev pub Fits : Ppm → Type 0
  Fits p = (p.xsize < 2 ^ 32) × (p.ysize < 2 ^ 32) × (length p.data_ ≡ memory p.xsize p.ysize)

  module _ (allocated : ℕ → Bool) (scans : Scans) (p : Ppm) (fits : Fits p)
      (memory_left : allocated (memory p.xsize p.ysize) ≡ true) where
    abbrev returned : Option Ppm
    returned = if begins_with_space isspace p.data_ then none else some p

    abbrev picture_of : List ℕ → Reading
    picture_of bytes = record {
      picture = some (record { xsize = p.xsize; ysize = p.ysize; data_ = bytes });
      left_open = false;
    }

    read_back :
        (bytes : List ℕ)
        → bytes ≡ skip_spaces isspace p.data_
        → read_data p.xsize p.ysize bytes ≡ record { picture = returned; left_open = false }
    unfolding read_data
    read_back bytes e = elim (Bool-cases (begins_with_space isspace p.data_)) [
      | inl space ↦
          let short : ltb (length bytes) (memory p.xsize p.ysize) ≡ true =
            ground (arith, ap length e, fits.2, skip_spaces-shorter isspace p.data_ space) in
          rw short (rw space refl)
      | inr no_space ↦
          let same : bytes ≡ p.data_ = e ∙ skip_spaces-none isspace p.data_ no_space in
          let enough : ltb (length bytes) (memory p.xsize p.ysize) ≡ false =
            ground (arith, ap length same, fits.2) in
          rw enough (
            rw no_space (
              ap picture_of (
                ap (λ n. take n bytes) (sym fits.2)
                ∙ ap (take (length p.data_)) same
                ∙ take_all p.data_)))
    ]

    -- Sizes of 32 bits with as many bytes as `memory` counts, `fscanf` as it is documented, and memory that
    -- suffices: `ppm_write` succeeds and frees the picture, and `ppm_read` of the file returns the same picture
    -- and closes the file, or returns NULL if the first byte of the data is a space.
    pub ppm_read-ppm_write :
        (w : Written) × (ppm_write header true p ≡ some w)
        × (w.result ≡ pos 0)
        × (w.freed ≡ true)
        × (ppm_read scan allocated (some w.content)
            ≡ record { picture = returned; left_open = false })
    unfolding ppm_write ppm_read read_header
    ppm_read-ppm_write =
        let enough : ltb (length p.data_) (memory p.xsize p.ysize) ≡ false =
          ground (arith, fits.2) in
        let content = header p.xsize p.ysize ++ take (memory p.xsize p.ysize) p.data_ in
        let all : take (memory p.xsize p.ysize) p.data_ ≡ p.data_ =
          ap (λ n. take n p.data_) (sym fits.2) ∙ take_all p.data_ in
        let read : scan content ≡ some (p.xsize, p.ysize, skip_spaces isspace p.data_) =
          ap (λ d. scan (header p.xsize p.ysize ++ d)) all
          ∙ scans p.xsize p.ysize p.data_ fits.0 fits.1 in
        (
          record { result = pos 0; content = content; freed = true },
          rw enough refl,
          refl,
          refl,
          rw read (rw memory_left (read_back (skip_spaces isspace p.data_) refl)),
        )
