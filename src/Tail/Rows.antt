-- ===== src/Tail/Rows.antt =====
-- tail.c prints the last lines of an input of whole lines that fit in its buffer.
use school_projects.Base.{
  ℕ, zero, suc, ◌+◌, ◌*◌, ◌/◌, ◌%◌, ◌^◌, ◌≤◌, ◌<◌, ◌≡◌, ◌≢◌, ◌⊎◌, refl, sym, ◌∙◌, ap, subst, arith,
  true, false, Bool-cases, inl, inr, some, List, [], ◌∷◌, ◌++◌, append_assoc, append-nil, length,
  length-append, get_elem?, leb, ltb, ◌==◌,
}
use native.Mathlib.Nat.{div-add-mod, mul-le-mul_left, mul-suc, add-mod_right}
use school_projects.Tail.{Text}
use school_projects.Tail.Last.{last}
use school_projects.Tail.Buffer.{
  Reader, empty_reader, zeros, take_chars, print_rows, previous_of, last_of_row, tail,
}
use school_projects.Tail.Buffer.Lines.{
  NoNewline, Took, take_line, take_chars-append, print_row-line,
}

-- Rows that are less than `n` lines apart are different.
mod_apart : (n i j : ℕ) → j < i → i < j + n → i % n ≢ j % n
mod_apart n i j before near same = elim (Bool-cases (leb (i / n) (j / n))) [
  | inl le ↦
      let up : n * (i / n) ≤ n * (j / n) = mul-le-mul_left n (ground arith) in
      omega (arith, up, div-add-mod i n, div-add-mod j n, same)
  | inr gt ↦
      let up : n * suc (j / n) ≤ n * (i / n) = mul-le-mul_left n (ground arith) in
      let next : n * suc (j / n) ≡ n * (j / n) + n = mul-suc n (j / n) in
      omega (arith, up, next, div-add-mod i n, div-add-mod j n, same)
]

get_elem?-snoc :
    (ls : List Text) (x l : Text) (j : ℕ)
    → get_elem? (ls ++ x ∷ []) j ≡ some l
    → ((j < length ls) × (get_elem? ls j ≡ some l)) ⊎ ((j ≡ length ls) × (x ≡ l))
get_elem?-snoc [] x l zero e = inr (refl, cc)
get_elem?-snoc [] x l (suc j) e = absurd cc
get_elem?-snoc (y ∷ ls) x l zero e = inl (omega arith, e)
get_elem?-snoc (y ∷ ls) x l (suc j) e = elim (get_elem?-snoc ls x l j e) [
  | inl (lt, k) ↦ inl (omega (arith, lt), k)
  | inr (last, k) ↦ inr (omega (arith, last), k)
]

-- After the lines `ls`, the last `n` of them are at the start of their rows.
record Rows (n : ℕ) (ls : List Text) (s : Reader) : Type 0 where
  pub i : s.i ≡ length ls
  pub chars_count : s.chars_count ≡ 0
  pub skipping : s.skipping ≡ false
  pub size : (r : ℕ) → length (s.buffer r) ≡ 1026
  pub last : (r : ℕ) → last_of_row (s.buffer r) ≡ 0
  pub line :
      (j : ℕ) (l : Text)
      → get_elem? ls j ≡ some l
      → length ls ≤ j + n
      → (rest : Text) × (s.buffer (j % n) ≡ l ++ 10 ∷ rest)

Took-Rows :
    (n : ℕ) (ls : List Text) (l : Text) (s s' : Reader)
    → Took n [] l s s'
    → Rows n ls s
    → Rows n (ls ++ l ∷ []) s'
Took-Rows n ls l s s' k v = record {
  i = omega (arith, k.i, v.i, length-append ls (l ∷ []));
  chars_count = k.chars_count;
  skipping = k.skipping;
  size = λ r. elim (Bool-cases (s.i % n == r)) [
    | inl here ↦
        let same : s.i % n ≡ r = ground arith in
        ap (λ q. length (s'.buffer q)) (sym same) ∙ k.size ∙ v.size (s.i % n)
    | inr other ↦ ap length (k.others r (ground arith)) ∙ v.size r
  ];
  last = λ r. elim (Bool-cases (s.i % n == r)) [
    | inl here ↦
        let same : s.i % n ≡ r = ground arith in
        ap (λ q. last_of_row (s'.buffer q)) (sym same) ∙ k.last ∙ v.last (s.i % n)
    | inr other ↦ ap last_of_row (k.others r (ground arith)) ∙ v.last r
  ];
  line = λ j x e near. elim (get_elem?-snoc ls l x j e) [
    | inl (lt, before) ↦
        let size = length-append ls (l ∷ []) in
        let (rest, at) = v.line j x before (omega (arith, near, size)) in
        let apart = mod_apart n s.i j (omega (arith, v.i, lt)) (omega (arith, v.i, near, size)) in
        (rest, k.others (j % n) apart ∙ at)
    | inr (last, same) ↦
        let now : j ≡ s.i = omega (arith, v.i, last) in
        (k.rest, ap (λ q. s'.buffer (q % n)) now ∙ k.row ∙ ap (λ y. y ++ 10 ∷ k.rest) same)
  ];
}

-- Whole lines of at most 1024 characters, each with its newline.
abbrev pub Whole : List Text → Type 0
Whole [] = Unit
Whole (l ∷ ls) = NoNewline l × (length l ≤ 1024) × Whole ls

abbrev pub encode_lines : List Text → Text
encode_lines [] = []
encode_lines (l ∷ ls) = (l ++ 10 ∷ []) ++ encode_lines ls

length-zeros : (k : ℕ) → length (zeros k) ≡ k
length-zeros zero = refl
length-zeros (suc k) = ap suc (length-zeros k)

empty-Rows : (n : ℕ) → Rows n [] empty_reader
empty-Rows n = record {
  i = refl;
  chars_count = refl;
  skipping = refl;
  size = λ r. refl;
  last = λ r. refl;
  line = λ j l e near. absurd cc;
}

read-Rows :
    (n : ℕ) (ls before : List Text) (s : Reader)
    → Whole ls
    → Rows n before s
    → Rows n (before ++ ls) (take_chars n (encode_lines ls) s)
unfolding take_chars
read-Rows n [] before s whole v = rw (append-nil before) v
read-Rows n (l ∷ ls) before s (clean, short, whole) v =
    let s' = take_chars n (l ++ 10 ∷ []) s in
    let k =
      take_line n l [] (s.buffer (s.i % n)) s clean v.skipping v.chars_count refl
        (omega (arith, short)) (omega (arith, short, v.size (s.i % n))) in
    let rows : Rows n ((before ++ l ∷ []) ++ ls) (take_chars n (encode_lines ls) s') =
      read-Rows n ls (before ++ l ∷ []) s' whole (Took-Rows n before l s s' k v) in
    subst (λ t. Rows n (before ++ l ∷ ls) t)
      (sym (take_chars-append n (l ++ 10 ∷ []) (encode_lines ls) s))
      (subst (λ t. Rows n t (take_chars n (encode_lines ls) s')) (append_assoc before (l ∷ []) ls)
        rows)

previous_lem :
    (n outside : ℕ) (ls : List Text) (s : Reader) (r : ℕ)
    → Rows n ls s
    → outside ≢ 10
    → previous_of outside r s.buffer ≢ 10
previous_lem n outside ls s zero v ne = ne
previous_lem n outside ls s (suc r) v ne = λ e. absurd (omega (arith, e, v.last r))

-- The rows from the line `j` on, which are the rest `us` of the lines.
print_lines :
    (n outside : ℕ) (ls : List Text) (s : Reader) (us : List Text) (j : ℕ)
    → Rows n ls s
    → outside ≢ 10
    → Whole us
    → length ls ≤ j + n
    → ((m : ℕ) (l : Text) → get_elem? us m ≡ some l → get_elem? ls (j + m) ≡ some l)
    → print_rows n outside (length us) (j + n) s.buffer ≡ encode_lines us
unfolding print_rows
print_lines n outside ls s [] j v ne whole near from = refl
print_lines n outside ls s (l ∷ us) j v ne (clean, short, whole) near from =
    let here : get_elem? ls j ≡ some l =
      subst (λ q. get_elem? ls q ≡ some l) (omega arith) (from 0 l refl) in
    let (rest, row) = v.line j l here near in
    let same : (j + n) % n ≡ j % n = add-mod_right j n in
    let up : suc j + n ≡ suc (j + n) = omega arith in
    let next : print_rows n outside (length us) (suc (j + n)) s.buffer ≡ encode_lines us =
      ap (λ q. print_rows n outside (length us) q s.buffer) (sym up)
      ∙ print_lines n outside ls s us (suc j) v ne whole (omega (arith, near))
          (λ m x e. subst (λ q. get_elem? ls q ≡ some x) (omega arith) (from (suc m) x e)) in
    rw same (
      rw row (
        rw
          (print_row-line l rest 1025 (previous_of outside (j % n) s.buffer) clean
            (previous_lem n outside ls s (j % n) v ne) (omega (arith, short)))
          (ap (λ t. (l ++ 10 ∷ []) ++ t) next)))

record Split (n : ℕ) (ls : List Text) : Type 0 where
  before : List Text
  whole : before ++ last n ls ≡ ls
  size : length (last n ls) ≡ n

last-Split : (n : ℕ) (ls : List Text) → n ≤ length ls → Split n ls
last-Split n [] h = record { before = []; whole = refl; size = omega (arith, h) }
last-Split n (x ∷ ls) h = elim (Bool-cases (ltb n (length (x ∷ ls)))) [
  | inl more ↦
      let k = last-Split n ls (ground (arith, more)) in
      record {
        before = x ∷ k.before;
        whole = rw more (ap (λ r. x ∷ r) k.whole);
        size = rw more k.size;
      }
  | inr exact ↦ record {
    before = [];
    whole = rw exact refl;
    size = rw exact (ground (arith, h, exact));
  }
]

Whole-append : (xs ys : List Text) → Whole (xs ++ ys) → Whole ys
Whole-append [] ys w = w
Whole-append (x ∷ xs) ys (a, b, w) = Whole-append xs ys w

get_elem?-append :
    (xs ys : List Text) (m : ℕ) → get_elem? (xs ++ ys) (length xs + m) ≡ get_elem? ys m
get_elem?-append [] ys m = ap (get_elem? ys) (omega arith)
get_elem?-append (x ∷ xs) ys m =
    let up : suc (length xs) + m ≡ suc (length xs + m) = omega arith in
    ap (get_elem? (x ∷ (xs ++ ys))) up ∙ get_elem?-append xs ys m

nothing : (us : List Text) → length us ≡ 0 → us ≡ []
nothing [] h = refl
nothing (u ∷ us) h = absurd (omega arith)

-- If an input of whole lines of at most 1024 characters has at least `n` lines, and their number and `n` add up
-- to less than 2 ^ 31, tail.c prints its last `n` lines with their newlines. The character before the buffer, which the code reads, is not a newline.
pub tail_lem :
    (n outside : ℕ) (ls : List Text)
    → Whole ls
    → n ≤ length ls
    → length ls + n < 2 ^ 31
    → outside ≢ 10
    → tail n outside (encode_lines ls) ≡ some (encode_lines (last n ls))
unfolding tail
tail_lem n outside ls whole enough small ne =
    let k = last-Split n ls enough in
    let s = take_chars n (encode_lines ls) empty_reader in
    let v : Rows n ls s = read-Rows n ls [] empty_reader whole (empty-Rows n) in
    let us = last n ls in
    let lengths = length-append k.before us in
    let at : s.i ≡ length k.before + n = omega (arith, v.i, lengths, ap length k.whole, k.size) in
    let printed : print_rows n outside (length us) (length k.before + n) s.buffer
        ≡ encode_lines us =
      print_lines n outside ls s us (length k.before) v ne
        (Whole-append k.before us (subst Whole (sym k.whole) whole)) (omega (arith, v.i, at))
        (λ m l e.
          ap (λ q. get_elem? q (length k.before + m)) (sym k.whole)
          ∙ get_elem?-append k.before us m
          ∙ e) in
    let same : print_rows n outside n s.i s.buffer ≡ encode_lines us =
      ap (λ q. print_rows n outside q s.i s.buffer) (sym k.size)
      ∙ ap (λ q. print_rows n outside (length us) q s.buffer) at
      ∙ printed in
    elim (Bool-cases (n == 0)) [
      | inl none_asked ↦
          rw none_asked
            (ap some (sym (ap encode_lines (nothing us (ground (arith, none_asked, k.size))))))
      | inr asked ↦
          let no_overflow : ltb (s.i + n) (2 ^ 31) ≡ true = ground (arith, v.i, small) in
          rw asked (rw v.skipping (rw no_overflow (ap some same)))
    ]
