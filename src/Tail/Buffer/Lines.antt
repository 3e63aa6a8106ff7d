-- ===== src/Tail/Buffer/Lines.antt =====
-- What the buffer holds after whole lines of at most 1024 characters.
use school_projects.Base.{
  ℕ, zero, suc, ◌+◌, ◌%◌, ◌≤◌, ◌<◌, ◌≡◌, ◌≢◌, refl, sym, ◌∙◌, ap, subst, arith, false, [], ◌∷◌,
  ◌++◌, ==_refl, ==_of_ne, append_assoc, set, length, length-append, ◌==◌,
}
use school_projects.Tail.{Text}
use school_projects.Tail.Buffer.{
  Reader, take_char, take_chars, next_line, store, print_row, last_of_row,
}

set-append :
    (pre : Text) (o c : ℕ) (old : Text) → set (pre ++ o ∷ old) (length pre) c ≡ pre ++ c ∷ old
set-append [] o c old = refl
set-append (p ∷ pre) o c old = ap (λ r. p ∷ r) (set-append pre o c old)

-- A line without newlines.
abbrev pub NoNewline : Text → Type 0
NoNewline [] = Unit
NoNewline (c ∷ cs) = (c ≢ 10) × NoNewline cs

-- What one line changes: its row begins with it, and the other rows are as before.
pub record Took (n : ℕ) (pre line : Text) (s s' : Reader) : Type 0 where
  pub rest : Text
  pub row : s'.buffer (s.i % n) ≡ pre ++ (line ++ 10 ∷ rest)
  pub size : length (s'.buffer (s.i % n)) ≡ length (s.buffer (s.i % n))
  pub last : last_of_row (s'.buffer (s.i % n)) ≡ last_of_row (s.buffer (s.i % n))
  pub others : (r : ℕ) → s.i % n ≢ r → s'.buffer r ≡ s.buffer r
  pub i : s'.i ≡ suc s.i
  pub chars_count : s'.chars_count ≡ 0
  pub skipping : s'.skipping ≡ false

length-set : (xs : Text) (i c : ℕ) → length (set xs i c) ≡ length xs
length-set [] i c = refl
length-set (x ∷ xs) zero c = refl
length-set (x ∷ xs) (suc i) c = ap suc (length-set xs i c)

last_of_row-set :
    (xs : Text) (i c : ℕ) → suc i < length xs → last_of_row (set xs i c) ≡ last_of_row xs
last_of_row-set [] i c h = refl
last_of_row-set (x ∷ []) i c h = absurd (omega arith)
last_of_row-set (x ∷ (y ∷ xs)) zero c h = refl
last_of_row-set (x ∷ (y ∷ [])) (suc i) c h = absurd (omega arith)
last_of_row-set (x ∷ (y ∷ (z ∷ xs))) (suc zero) c h = refl
last_of_row-set (x ∷ (y ∷ (z ∷ xs))) (suc (suc i)) c h =
    last_of_row-set (y ∷ (z ∷ xs)) (suc i) c (omega (arith, h))

module _ (n : ℕ) where
  stored_last :
      (c : ℕ) (s : Reader)
      → suc s.chars_count < length (s.buffer (s.i % n))
      → last_of_row ((store n c s).buffer (s.i % n)) ≡ last_of_row (s.buffer (s.i % n))
  stored_last c s h =
      rw (==_refl (s.i % n)) (last_of_row-set (s.buffer (s.i % n)) s.chars_count c h)

  stored :
      (pre old : Text) (o c : ℕ) (s : Reader)
      → s.chars_count ≡ length pre
      → s.buffer (s.i % n) ≡ pre ++ o ∷ old
      → (store n c s).buffer (s.i % n) ≡ pre ++ c ∷ old
  stored pre old o c s count row =
      rw (==_refl (s.i % n)) (rw count (rw row (set-append pre o c old)))

  stored_size :
      (c : ℕ) (s : Reader) → length ((store n c s).buffer (s.i % n)) ≡ length (s.buffer (s.i % n))
  stored_size c s = rw (==_refl (s.i % n)) (length-set (s.buffer (s.i % n)) s.chars_count c)

  stored_others : (c : ℕ) (s : Reader) (r : ℕ) → s.i % n ≢ r → (store n c s).buffer r ≡ s.buffer r
  stored_others c s r ne =
      let other : (s.i % n == r) ≡ false = ==_of_ne (s.i % n) r ne in rw other refl

  take_newline : (s : Reader) → s.skipping ≡ false → take_char n 10 s ≡ next_line n (store n 10 s)
  unfolding take_char
  take_newline s idle = rw idle refl

  take_other :
      (c : ℕ) (s : Reader)
      → s.skipping ≡ false
      → c ≢ 10
      → s.chars_count < 1024
      → take_char n c s ≡ store n c s
  unfolding take_char
  take_other c s idle ne room =
      let other : (c == 10) ≡ false = ==_of_ne c 10 ne in
      let short : (suc s.chars_count == 1025) ≡ false = ground (arith, room) in
      rw idle (rw other (rw short refl))

  pub take_line :
      (line pre old : Text) (s : Reader)
      → NoNewline line
      → s.skipping ≡ false
      → s.chars_count ≡ length pre
      → s.buffer (s.i % n) ≡ pre ++ old
      → length pre + length line ≤ 1024
      → suc (length line) < length old
      → Took n pre line s (take_chars n (line ++ 10 ∷ []) s)
  unfolding take_chars take_char
  take_line [] pre [] s clean idle count row fits room = absurd (omega arith)
  take_line [] pre (o ∷ old) s clean idle count row fits room =
      subst (λ t. Took n pre [] s t) (sym (take_newline s idle))
        (record {
          rest = old;
          row = stored pre old o 10 s count row;
          size = stored_size 10 s;
          last =
              stored_last 10 s
                (omega (arith, count, room, ap length row, length-append pre (o ∷ old)));
          others = stored_others 10 s;
          i = refl;
          chars_count = refl;
          skipping = refl;
        })
  take_line (c ∷ line) pre [] s clean idle count row fits room = absurd (omega arith)
  take_line (c ∷ line) pre (o ∷ old) s clean idle count row fits room =
      let s' = store n c s in
      let k =
        take_line line (pre ++ c ∷ []) old s' clean.1 idle
          (omega (arith, count, length-append pre (c ∷ [])))
          (stored pre old o c s count row ∙ sym (append_assoc pre (c ∷ []) old))
          (omega (arith, fits, length-append pre (c ∷ []))) (omega (arith, room)) in
      subst (λ t. Took n pre (c ∷ line) s (take_chars n (line ++ 10 ∷ []) t))
        (sym (take_other c s idle clean.0 (omega (arith, count, fits))))
        (record {
          rest = k.rest;
          row = k.row ∙ append_assoc pre (c ∷ []) (line ++ 10 ∷ k.rest);
          size = k.size ∙ stored_size c s;
          last =
              k.last
              ∙ stored_last c s
                  (omega (arith, count, room, ap length row, length-append pre (o ∷ old)));
          others = λ r ne. k.others r ne ∙ stored_others c s r ne;
          i = k.i;
          chars_count = k.chars_count;
          skipping = k.skipping;
        })

  pub take_chars-append :
      (xs ys : Text) (s : Reader) → take_chars n (xs ++ ys) s ≡ take_chars n ys (take_chars n xs s)
  unfolding take_chars
  take_chars-append [] ys s = refl
  take_chars-append (x ∷ xs) ys s = take_chars-append xs ys (take_char n x s)

-- A row that begins with a line and a newline prints that line.
pub print_row-line :
    (line rest : Text) (count previous : ℕ)
    → NoNewline line
    → previous ≢ 10
    → length line < count
    → print_row count previous (line ++ 10 ∷ rest) ≡ line ++ 10 ∷ []
unfolding print_row
print_row-line line rest zero previous clean ne h = absurd (omega arith)
print_row-line [] rest (suc zero) previous clean ne h =
    let other : (previous == 10) ≡ false = ==_of_ne previous 10 ne in rw other refl
print_row-line [] [] (suc (suc k)) previous clean ne h =
    let other : (previous == 10) ≡ false = ==_of_ne previous 10 ne in rw other refl
print_row-line [] (r ∷ rest) (suc (suc k)) previous clean ne h =
    let other : (previous == 10) ≡ false = ==_of_ne previous 10 ne in rw other refl
print_row-line (c ∷ line) rest (suc k) previous clean ne h =
    let other : (previous == 10) ≡ false = ==_of_ne previous 10 ne in
    rw other (ap (λ r. c ∷ r) (print_row-line line rest k c clean.1 clean.0 (omega (arith, h))))
