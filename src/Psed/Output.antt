-- ===== src/Psed/Output.antt =====
-- What the program is to print: for every line, in order, what each thread makes of it, in order.
use school_projects.Base.{
  ℕ, zero, suc, ◌≤◌, ◌≡◌, ◌==◌, Bool-cases, inl, inr, refl, sym, ◌∙◌, ap, arith, Option, none, some,
  List, [], ◌∷◌, ◌++◌, append-nil, append_assoc,
}
use school_projects.Psed.{Text, to_cstr}

module _ (edit : ℕ → Text → Text) where
  -- What the first `k` threads print for a line.
  unfoldable pub prints : ℕ → Text → List Text
  prints zero l = []
  prints (suc k) l = prints k l ++ to_cstr (edit k l) ∷ []

  -- What `n` threads print for all lines.
  unfoldable pub print_all : ℕ → List Text → List Text
  print_all n [] = []
  print_all n (l ∷ ls) = prints n (to_cstr l) ++ print_all n ls

  -- The part of the current line that is printed.
  unfoldable pub prints_line : ℕ → Option Text → List Text
  prints_line k none = []
  prints_line k (some l) = prints k l

  pub prints_line-suc :
      (k : ℕ) {o : Option Text} {l x : Text}
      → o ≡ some l
      → x ≡ to_cstr (edit k l)
      → prints_line (suc k) o ≡ prints_line k o ++ x ∷ []
  unfolding prints_line prints
  prints_line-suc k e made = rw e (rw made refl)

  pub prints_line_zero : {k : ℕ} (o : Option Text) → k ≡ 0 → prints_line k o ≡ []
  unfolding prints_line prints
  prints_line_zero none e = refl
  prints_line_zero (some l) e = rw e refl

  -- Before any thread prints, the output ends with the line before.
  pub append-prints_line_zero :
      (r : List Text) {k : ℕ} (o : Option Text) → k ≡ 0 → r ++ prints_line k o ≡ r
  append-prints_line_zero r o e = ap (λ l. r ++ l) (prints_line_zero o e) ∙ append-nil r

  pub print_all-append :
      (n : ℕ) (ls ms : List Text) → print_all n (ls ++ ms) ≡ print_all n ls ++ print_all n ms
  unfolding print_all
  print_all-append n [] ms = refl
  print_all-append n (l ∷ ls) ms =
      ap (λ r. prints n (to_cstr l) ++ r) (print_all-append n ls ms)
      ∙ sym (append_assoc (prints n (to_cstr l)) (print_all n ls) (print_all n ms))

  pub print_all-snoc :
      (n : ℕ) (ls : List Text) (l : Text)
      → print_all n (ls ++ l ∷ []) ≡ print_all n ls ++ prints n (to_cstr l)
  unfolding print_all
  print_all-snoc n ls l =
      print_all-append n ls (l ∷ [])
      ∙ ap (λ r. print_all n ls ++ r) (append-nil (prints n (to_cstr l)))

  -- The threads before the `k`-th print first.
  pub prints_prefix :
      (k m : ℕ) (l : Text) → k ≤ m → (rest : List Text) × (prints m l ≡ prints k l ++ rest)
  unfolding prints
  prints_prefix zero zero l h = ([], refl)
  prints_prefix (suc k) zero l h = absurd (omega arith)
  prints_prefix k (suc m) l h = elim (Bool-cases (k == suc m)) [
    | inl last ↦
        let same : k ≡ suc m = ground arith in ([], rw same (sym (append-nil (prints (suc m) l))))
    | inr below ↦
        let (rest, e) = prints_prefix k m l (ground arith) in
        (
          rest ++ to_cstr (edit m l) ∷ [],
          ap (λ r. r ++ to_cstr (edit m l) ∷ []) e
              ∙ append_assoc (prints k l) rest (to_cstr (edit m l) ∷ []),
        )
  ]
