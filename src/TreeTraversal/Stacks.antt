-- ===== src/TreeTraversal/Stacks.antt =====
-- The stacks in arrays, as the lists of what they hold, the top first.
use school_projects.Base.{
  ℕ, suc, ◌-◌, ◌<◌, ◌≡◌, ◌≢◌, refl, Bool, false, some, List, [], ◌∷◌, arith, ◌==◌, length,
  get_elem?, set, length-set, get_elem?-set_self, get_elem?-set_ne, get_elem?-of_lt,
  get_elem?-of_ge, subst,
}
use school_projects.Memory.{done, undefined}
use school_projects.TreeTraversal.{
  Tree, Stack, Machine, read_top, write_top, maxstack, s_push_p, s_top_pop_p, s_push_b, s_top_pop_b,
}

module _ {A : Type 0} where
  -- Index 0 of the array is not used.
  abbrev pub Stored : List A → List A → Type 0
  Stored a [] = Unit
  Stored a (x ∷ xs) = (get_elem? a (suc (length xs)) ≡ some x) × Stored a xs

  pub record Holds (s : Stack A) (xs : List A) : Type 0 where
    pub allocated : length s.a ≡ maxstack
    pub top_is : s.top ≡ length xs
    pub stored : Stored s.a xs

  Stored-set :
      (a : List A) (i : ℕ) (x : A) (xs : List A)
      → length xs < i
      → Stored a xs
      → Stored (set a i x) xs
  Stored-set a i x [] h st = tt
  Stored-set a i x (y ∷ ys) h st =
      let ne : i ≢ suc (length ys) = λ e. ground (arith, e) in
      (
        rw (get_elem?-set_ne a i (suc (length ys)) x ne) st.0,
        Stored-set a i x ys (omega arith) st.1,
      )

  abbrev pub pushed : Stack A → A → Stack A
  pushed s x = record { a = set s.a (suc s.top) x; top = suc s.top }

  abbrev pub popped : Stack A → Stack A
  popped s = record s { top = s.top - 1 }

  pub Holds-pushed :
      (s : Stack A) (x : A) (xs : List A)
      → Holds s xs
      → suc (length xs) < maxstack
      → Holds (pushed s x) (x ∷ xs)
  Holds-pushed s x xs is fits = record {
    allocated = ground (arith, length-set s.a (suc s.top) x, is.allocated);
    top_is = ground (arith, is.top_is);
    stored = (
      subst (λ i. get_elem? (set s.a (suc s.top) x) (suc i) ≡ some x) is.top_is
          (get_elem?-set_self s.a (suc s.top) x (ground (arith, is.allocated, is.top_is))),
      Stored-set s.a (suc s.top) x xs (ground (arith, is.top_is)) is.stored,
    );
  }

  pub Holds-popped : (s : Stack A) (x : A) (xs : List A) → Holds s (x ∷ xs) → Holds (popped s) xs
  Holds-popped s x xs is = record {
    allocated = is.allocated;
    top_is = ground (arith, is.top_is);
    stored = is.stored.1;
  }

  read_top-done :
      {w : Machine} (s : Stack A) (x : A) (xs : List A) → Holds s (x ∷ xs) → read_top s w ≡ done x w
  unfolding read_top
  read_top-done s x xs is = ground (arith, is.top_is, is.stored.0)

  write_top-done :
      {w : Machine} (s : Stack A) (x : A)
      → s.top < length s.a
      → write_top s x w ≡ done (record s { a = set s.a s.top x }) w
  unfolding write_top
  write_top-done s x h = let (_, there) = get_elem?-of_lt s.a s.top h in ground (arith, there)

  write_top-undefined :
      (w : Machine) (s : Stack A) (x : A) → ¬ (s.top < length s.a) → write_top s x w ≡ undefined
  unfolding write_top
  write_top-undefined w s x h = let out = get_elem?-of_ge s.a s.top h in ground (arith, out)

-- A push on a stack that is not full, and a pop from one that is not empty.
module _ (w : Machine) where
  pub s_push_p-done :
      (t : Tree) (xs : List Tree)
      → Holds w.pointers xs
      → suc (length xs) < maxstack
      → s_push_p t w ≡ done tt (record w { pointers = pushed w.pointers t })
  unfolding s_push_p
  s_push_p-done t xs is fits =
      let s = record (w.pointers) { top = suc w.pointers.top } in
      let room : (w.pointers.top == maxstack) ≡ false = ground (arith, is.top_is) in
      simp (room, write_top-done {w = w} s t (ground (arith, is.top_is, is.allocated))) refl

  pub s_top_pop_p-done :
      (t : Tree) (xs : List Tree)
      → Holds w.pointers (t ∷ xs)
      → s_top_pop_p w ≡ done t (record w { pointers = popped w.pointers })
  unfolding s_top_pop_p
  s_top_pop_p-done t xs is =
      let some_left : (w.pointers.top == 0) ≡ false = ground (arith, is.top_is) in
      simp (some_left, read_top-done {w = w} w.pointers t xs is) refl

  pub s_push_b-done :
      (b : Bool) (xs : List Bool)
      → Holds w.flags xs
      → suc (length xs) < maxstack
      → s_push_b b w ≡ done tt (record w { flags = pushed w.flags b })
  unfolding s_push_b
  s_push_b-done b xs is fits =
      let s = record (w.flags) { top = suc w.flags.top } in
      let room : (w.flags.top == maxstack) ≡ false = ground (arith, is.top_is) in
      simp (room, write_top-done {w = w} s b (ground (arith, is.top_is, is.allocated))) refl

  pub s_top_pop_b-done :
      (b : Bool) (xs : List Bool)
      → Holds w.flags (b ∷ xs)
      → s_top_pop_b w ≡ done b (record w { flags = popped w.flags })
  unfolding s_top_pop_b
  s_top_pop_b-done b xs is =
      let some_left : (w.flags.top == 0) ≡ false = ground (arith, is.top_is) in
      simp (some_left, read_top-done {w = w} w.flags b xs is) refl

  -- With 29 pointers on the stack, `SPushP` passes its test for a full stack and writes outside the array.
  pub s_push_p-undefined :
      (t : Tree) (xs : List Tree) → Holds w.pointers xs → length xs ≡ 29 → s_push_p t w ≡ undefined
  unfolding s_push_p
  s_push_p-undefined t xs is full =
      let s = record (w.pointers) { top = suc w.pointers.top } in
      let room : (w.pointers.top == maxstack) ≡ false = ground (arith, is.top_is) in
      simp (room, write_top-undefined w s t (λ h. omega (arith, is.top_is, is.allocated))) refl
