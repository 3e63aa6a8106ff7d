-- ===== src/Sieve/Picture.antt =====
-- ppm.c of sem_2/ijc/proj_1: a picture is read from a file and written to one. Parameters stand for `fscanf` and
-- `fprintf` with the format of the header; a file is a list of bytes.
pub mod Files
use school_projects.Base.{
  ℕ, zero, suc, ◌*◌, ◌%◌, ◌^◌, Bool, true, false, Option, none, some, List, [], ◌∷◌, ◌++◌, length,
  ltb, if◌then◌else◌,
}
use school_projects.Base.Int.{ℤ, pos, negsuc}

-- `struct ppm`
pub record Ppm : Type 0 where
  pub xsize : ℕ
  pub ysize : ℕ
  pub data_ : List ℕ

-- `3 * x * y * sizeof(char)`: the product is an `unsigned int` of 32 bits.
abbrev pub memory : (x y : ℕ) → ℕ
memory x y = 3 * x * y % 2 ^ 32

abbrev pub take : ℕ → List ℕ → List ℕ
take zero bytes = []
take (suc n) [] = []
take (suc n) (b ∷ bytes) = b ∷ take n bytes

-- What `ppm_read` returns, and whether it leaves the file open.
pub record Reading : Type 0 where
  pub picture : Option Ppm
  pub left_open : Bool

-- What `ppm_write` returns, what is in the file then, and whether `p` has been freed.
pub record Written : Type 0 where
  pub result : ℤ
  pub content : List ℕ
  pub freed : Bool

-- `fread` gets as many bytes as there are, up to `n`.
unfoldable pub read_data : (x y : ℕ) → (bytes : List ℕ) → Reading
read_data x y bytes =
    if ltb (length bytes) (memory x y)
    then record { picture = none; left_open = false }
    else record {
      picture = some (record { xsize = x; ysize = y; data_ = take (memory x y) bytes });
      left_open = false;
    }

-- `scan` gives the two numbers and the bytes that are not read yet, or none if `fscanf` does not return 2.
-- `allocated` tells whether `malloc` succeeds, for the number of bytes of the picture.
module _ (scan : List ℕ → Option (ℕ × ℕ × List ℕ)) (allocated : ℕ → Bool) where
  unfoldable pub read_header : Option (ℕ × ℕ × List ℕ) → Reading
  unfolding read_data
  read_header none = record { picture = none; left_open = true }
  read_header (some (x, y, bytes)) =
      if allocated (memory x y)
      then read_data x y bytes
      else record { picture = none; left_open = false }

  -- A file that cannot be opened is none.
  unfoldable pub ppm_read : (file : Option (List ℕ)) → Reading
  unfolding read_header
  ppm_read none = record { picture = none; left_open = false }
  ppm_read (some file) = read_header (scan file)

-- None if `fwrite` reads past the end of the picture. `opens` tells whether the file can be opened, and
-- `header` is what `fprintf` prints.
unfoldable pub ppm_write : (header : ℕ → ℕ → List ℕ) → (opens : Bool) → Ppm → Option Written
ppm_write header false p = some (record { result = negsuc 0; content = []; freed = false })
ppm_write header true p =
    let n = memory p.xsize p.ysize in
    if ltb (length p.data_) n
    then none
    else some (record {
      result = pos 0;
      content = header p.xsize p.ysize ++ take n p.data_;
      freed = true;
    })
