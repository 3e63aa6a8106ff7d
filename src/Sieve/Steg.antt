-- ===== src/Sieve/Steg.antt =====
-- `main` of steg-decode.c in sem_2/ijc/proj_1: the text that is hidden in a picture.
pub mod Text
use school_projects.Base.{ℕ, ◌-◌, Bool, Option, none, some, List, [], ◌∷◌}
use school_projects.Sieve.{BitArray, bit_array_create, eratosthenes}
use school_projects.Sieve.Decode.{decode}
use school_projects.Sieve.Picture.{Ppm, Reading, ppm_read}

-- How the program ends: what it has printed, and whether the text was complete, or one of its errors;
-- `undefined` is a read outside the picture or the bit array.
pub data Exit : Type 0 where
  wrong_arguments : Exit
  no_picture : Exit
  ended : (out : List ℕ) → (complete : Bool) → Exit
  undefined : Exit

abbrev pub exit_of : Option (List ℕ × Bool) → Exit
exit_of none = undefined
exit_of (some (out, complete)) = ended out complete

-- `below`, `scan` and `allocated` are as in the sieve and in ppm.c; `limit` is LIMIT.
module _ (below : ℕ → ℕ → Bool) (scan : List ℕ → Option (ℕ × ℕ × List ℕ)) (allocated : ℕ → Bool)
    (open_file : List ℕ → Option (List ℕ)) (limit : ℕ) where
  unfoldable pub decode_picture : Option Ppm → Option BitArray → Exit
  decode_picture none array = no_picture
  decode_picture (some p) none = undefined
  decode_picture (some p) (some a) = exit_of (decode a p.data_ (limit - 11) 11 0 0 [])

  -- `args` is `argv` without the name of the program.
  unfoldable pub steg_decode : (args : List (List ℕ)) → Exit
  unfolding decode_picture ppm_read
  steg_decode (name ∷ []) =
      decode_picture (ppm_read scan allocated (open_file name)).picture
        (eratosthenes below (bit_array_create limit))
  steg_decode [] = wrong_arguments
  steg_decode (a ∷ b ∷ rest) = wrong_arguments
