-- ===== src/Memory/Cells.antt =====
-- What a list stands for: the address and the value of each element, in order.
use school_projects.Base.{
  ◌≡◌, refl, ap, subst, Bool, true, false, ◌||◌, List, [], ◌∷◌, ◌++◌, arith, ◌==◌, ==_refl,
}
use school_projects.Base.Int.{ℤ}
use school_projects.Memory.{Ptr, null}

abbrev pub Cells : Type 0
Cells = List (Ptr × ℤ)

abbrev pub has : Ptr → Cells → Bool
has a [] = false
has a ((p, _) ∷ xs) = (a == p) || has a xs

-- The address of the first element, and `stop` if there is none.
abbrev pub front : Cells → Ptr → Ptr
front [] stop = stop
front ((p, _) ∷ xs) stop = p

-- The address of the last element, and `start` if there is none.
abbrev pub back : Ptr → Cells → Ptr
back start [] = start
back start ((p, _) ∷ xs) = back p xs

abbrev pub is_empty : Cells → Bool
is_empty [] = true
is_empty (_ ∷ _) = false

-- All elements but the last, and the last one alone.
abbrev pub init : Cells → Cells
init [] = []
init (c ∷ []) = []
init (c ∷ d ∷ xs) = c ∷ init (d ∷ xs)

abbrev pub last_cells : Cells → Cells
last_cells [] = []
last_cells (c ∷ []) = c ∷ []
last_cells (c ∷ d ∷ xs) = last_cells (d ∷ xs)

abbrev pub Distinct : Cells → Type 0
Distinct [] = Unit
Distinct ((p, _) ∷ xs) = (has p xs ≡ false) × Distinct xs

pub has-append : (a : Ptr) (xs ys : Cells) → has a (xs ++ ys) ≡ (has a xs || has a ys)
has-append a [] ys = refl
has-append a (x ∷ xs) ys = ground (arith, has-append a xs ys)

pub front-append : (xs ys : Cells) (stop : Ptr) → front (xs ++ ys) stop ≡ front xs (front ys stop)
front-append [] ys stop = refl
front-append (x ∷ xs) ys stop = refl

pub Distinct-append :
    (xs ys : Cells)
    → Distinct (xs ++ ys)
    → Distinct xs × Distinct ys × ((a : Ptr) → has a xs ≡ true → has a ys ≡ false)
Distinct-append [] ys d = (tt, d, ground arith)
Distinct-append ((p, v) ∷ xs) ys d =
    let (dx, dy, apart) = Distinct-append xs ys d.1 in
    (ground (arith, has-append p xs ys), dy, λ a h. ground (arith, has-append p xs ys, apart a))

pub append-Distinct :
    (xs ys : Cells)
    → Distinct xs
    → Distinct ys
    → ((a : Ptr) → has a xs ≡ true → has a ys ≡ false)
    → Distinct (xs ++ ys)
append-Distinct [] ys dx dy apart = dy
append-Distinct ((p, v) ∷ xs) ys dx dy apart = (
  ground (arith, has-append p xs ys, apart p),
  append-Distinct xs ys dx.1 dy (λ a h. ground (arith, apart a)),
)

pub back-append : (start : Ptr) (xs ys : Cells) → back start (xs ++ ys) ≡ back (back start xs) ys
back-append start [] ys = refl
back-append start ((p, _) ∷ xs) ys = back-append p xs ys

pub has-back : (p : Ptr) (v : ℤ) (xs : Cells) → has (back p xs) ((p, v) ∷ xs) ≡ true
has-back p v [] = ground (arith, ==_refl p)
has-back p v ((q, u) ∷ xs) = ground (arith, has-back q u xs)

pub ne_front :
    (xs : Cells) (a stop : Ptr)
    → has a xs ≡ false
    → (a == stop) ≡ false
    → (a == front xs stop) ≡ false
ne_front [] a stop out ne = ne
ne_front (x ∷ xs) a stop out ne = ground arith

pub front_ne :
    (xs : Cells) (a stop : Ptr)
    → has a xs ≡ false
    → (a == stop) ≡ false
    → (front xs stop == a) ≡ false
front_ne xs a stop out ne = ground (arith, ne_front xs a stop out ne)

pub front-ne-null :
    (xs : Cells) (stop : Ptr)
    → has null xs ≡ false
    → (stop == null) ≡ false
    → (front xs stop == null) ≡ false
front-ne-null [] stop out ne = ne
front-ne-null (x ∷ xs) stop out ne = ground arith

pub is_empty-snoc : (xs : Cells) (c : Ptr × ℤ) → is_empty (xs ++ (c ∷ [])) ≡ false
is_empty-snoc [] c = refl
is_empty-snoc (x ∷ xs) c = refl

pub init-append-last_cells : (xs : Cells) → init xs ++ last_cells xs ≡ xs
init-append-last_cells [] = refl
init-append-last_cells (x ∷ []) = refl
init-append-last_cells (x ∷ y ∷ xs) = ap (λ t. x ∷ t) (init-append-last_cells (y ∷ xs))

pub front-last_cells : (xs : Cells) (stop : Ptr) → front (last_cells xs) stop ≡ back stop xs
front-last_cells [] stop = refl
front-last_cells (x ∷ []) stop = refl
front-last_cells ((p, v) ∷ (q, u) ∷ xs) stop = front-last_cells ((q, u) ∷ xs) stop

pub init-snoc : (xs : Cells) (c : Ptr × ℤ) → init (xs ++ (c ∷ [])) ≡ xs
init-snoc [] c = refl
init-snoc (x ∷ []) c = refl
init-snoc (x ∷ y ∷ xs) c = ap (λ t. x ∷ t) (init-snoc (y ∷ xs) c)

pub last_cells-snoc : (xs : Cells) (c : Ptr × ℤ) → last_cells (xs ++ (c ∷ [])) ≡ c ∷ []
last_cells-snoc [] c = refl
last_cells-snoc (x ∷ []) c = refl
last_cells-snoc (x ∷ y ∷ xs) c = last_cells-snoc (y ∷ xs) c

-- A list that is not empty has a last element.
snoc_of : (x : Ptr × ℤ) (xs : Cells) → (us : Cells) × (c : Ptr × ℤ) × (us ++ (c ∷ []) ≡ x ∷ xs)
snoc_of x [] = ([], x, refl)
snoc_of x (y ∷ xs) = let (us, c, e) = snoc_of y xs in (x ∷ us, c, ap (λ t. x ∷ t) e)

-- Cases on a list from its end.
pub by_snoc {ℓ} :
    (P : Cells → Type ℓ)
    → P []
    → ((us : Cells) (p : Ptr) (v : ℤ) → P (us ++ ((p, v) ∷ [])))
    → (xs : Cells) → P xs
by_snoc P empty snoc [] = empty
by_snoc P empty snoc (x ∷ xs) = let (us, (p, v), e) = snoc_of x xs in subst P e (snoc us p v)
