-- ===== src/Allocator/Ring.antt =====
-- The ring of blocks as a list.
use school_projects.Base.{ℕ, ◌+◌, ◌≡◌, ◌≢◌, ◌∙◌, refl, arith, some, List, [], ◌∷◌, ◌++◌}
use school_projects.Memory.{Ptr, Heap}
use school_projects.Allocator.{Header}

pub record Block : Type 0 where
  pub address : Ptr
  pub size : ℕ
  pub asize : ℕ

-- The headers from `a` on, along `next`, are those of the blocks, and the last one leads to `z`. A ring is a
-- chain that leads back to where it starts.
abbrev pub Chain : Heap Header → Ptr → List Block → Ptr → Type 0
Chain h a [] z = a ≡ z
Chain h a (x ∷ xs) z =
    (x.address ≡ a)
    × ((n : Ptr) × (h a ≡ some (record { next = n; size = x.size; asize = x.asize }))
        × Chain h n xs z)

abbrev pub Avoids : Ptr → List Block → Type 0
Avoids p [] = Unit
Avoids p (x ∷ xs) = (x.address ≢ p) × Avoids p xs

-- A chain does not depend on headers that are not its own.
pub Chain-agree :
    (h h' : Heap Header) (p q : Ptr) (a : Ptr) (xs : List Block) (z : Ptr)
    → ((r : Ptr) → r ≢ p → r ≢ q → h' r ≡ h r)
    → Avoids p xs
    → Avoids q xs
    → Chain h a xs z
    → Chain h' a xs z
Chain-agree h h' p q a [] z same v w k = k
Chain-agree h h' p q a (x ∷ xs) z same v w (e, (n, m, k)) = (
  e,
  (
    n,
    same a (ground (arith, v, e)) (ground (arith, w, e)) ∙ m,
    Chain-agree h h' p q n xs z same v.1 w.1 k,
  ),
)

pub Chain-append :
    (h : Heap Header) (a : Ptr) (xs ys : List Block) (m z : Ptr)
    → Chain h a xs m
    → Chain h m ys z
    → Chain h a (xs ++ ys) z
Chain-append h a [] ys m z k l = ground (arith, k, l)
Chain-append h a (x ∷ xs) ys m z (e, (n, at, k)) l = (e, (n, at, Chain-append h n xs ys m z k l))

pub Chain-split :
    (h : Heap Header) (a : Ptr) (xs ys : List Block) (z : Ptr)
    → Chain h a (xs ++ ys) z
    → (m : Ptr) × Chain h a xs m × Chain h m ys z
Chain-split h a [] ys z k = (a, refl, k)
Chain-split h a (x ∷ xs) ys z (e, (n, at, k)) =
    let (m, left, right) = Chain-split h n xs ys z k in (m, (e, (n, at, left)), right)

-- The sizes of the blocks with their headers.
abbrev pub bytes : List Block → ℕ
bytes [] = 0
bytes (x ∷ xs) = x.size + 24 + bytes xs

abbrev pub last_address : Block → List Block → Ptr
last_address x [] = x.address
last_address x (y ∷ ys) = last_address y ys

pub Chain-head :
    (h : Heap Header) (n z p : Ptr) (xs ys : List Block) (x : Block)
    → Chain h n (xs ++ x ∷ ys) z
    → Avoids p (xs ++ x ∷ ys)
    → n ≢ p
Chain-head h n z p [] ys x k v = ground (arith, k, v)
Chain-head h n z p (y ∷ xs) ys x k v = ground (arith, k, v)
