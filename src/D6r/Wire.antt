-- ===== src/D6r/Wire.antt =====
-- Pointers into messages that are put together from parts, and the options of a message.
use school_projects.Base.{
  ℕ, zero, suc, ◌+◌, ◌/◌, ◌%◌, ◌<◌, ◌≡◌, refl, sym, ◌∙◌, ap, arith, some, [], ◌∷◌, ◌++◌, length,
}
use school_projects.D6r.{Bytes, skip, copy_from, ntohs, view_option}
use school_projects.D6r.Headers.{byte_at, skip-skip}
use school_projects.D6r.Client.{encode_option}

pub skip-append : (n : ℕ) (xs ys : Bytes) → length xs ≡ n → skip n (xs ++ ys) ≡ ys
skip-append zero [] ys e = refl
skip-append (suc n) [] ys e = absurd (omega (arith, e))
skip-append zero (x ∷ xs) ys e = absurd (omega (arith, e))
skip-append (suc n) (x ∷ xs) ys e = skip-append n xs ys (omega (arith, e))

-- A pointer that is moved past the part `xs`, and further by `m` bytes.
pub skip-append_more :
    (n m k : ℕ) (xs ys : Bytes) → length xs ≡ n → k ≡ n + m → skip k (xs ++ ys) ≡ skip m ys
skip-append_more n m k xs ys e h =
    sym (skip-skip m n k (xs ++ ys) h) ∙ ap (skip m) (skip-append n xs ys e)

pub copy_from-append : (n : ℕ) (xs ys : Bytes) → length xs ≡ n → copy_from n (xs ++ ys) ≡ some xs
copy_from-append zero [] ys e = refl
copy_from-append (suc n) [] ys e = absurd (omega (arith, e))
copy_from-append zero (x ∷ xs) ys e = absurd (omega (arith, e))
copy_from-append (suc n) (x ∷ xs) ys e = rw (copy_from-append n xs ys (omega (arith, e))) refl

pub byte_at-append :
    (n : ℕ) (xs : Bytes) (b : ℕ) (ys : Bytes) → length xs ≡ n → byte_at n (xs ++ b ∷ ys) ≡ some b
byte_at-append zero [] b ys e = refl
byte_at-append (suc n) [] b ys e = absurd (omega (arith, e))
byte_at-append zero (x ∷ xs) b ys e = absurd (omega (arith, e))
byte_at-append (suc n) (x ∷ xs) b ys e = byte_at-append n xs b ys (omega (arith, e))

pub ntohs-htons : (n : ℕ) → n < 65536 → ntohs (n / 256 % 256) (n % 256) ≡ n
ntohs-htons n h = omega arith

pub view_option-encode :
    (code : ℕ) (content tail : Bytes)
    → code < 65536
    → length content < 65536
    → view_option (encode_option code content ++ tail)
      ≡ some (code, length content, content ++ tail)
view_option-encode code content tail h k =
    rw (ntohs-htons code h) (rw (ntohs-htons (length content) k) refl)

pub length-encode_option :
    (code : ℕ) (content : Bytes) → length (encode_option code content) ≡ length content + 4
length-encode_option code content = omega arith
