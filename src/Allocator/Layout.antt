-- ===== src/Allocator/Layout.antt =====
-- Blocks that do not overlap, their headers included.
use school_projects.Base.{ℕ, ◌+◌, ◌*◌, ◌≤◌, ◌<◌, ◌≢◌, ◌⊎◌, arith, List, [], ◌∷◌, ◌++◌}
use school_projects.Memory.{Ptr}
use school_projects.Allocator.{sizeof_header, word}
use school_projects.Allocator.Ring.{Block, Avoids}

abbrev pub end_of : Block → ℕ
end_of x = x.address + sizeof_header + x.size

abbrev pub Apart : Block → Block → Type 0
Apart x y = (end_of x ≤ y.address) ⊎ (end_of y ≤ x.address)

abbrev pub AllApart : Block → List Block → Type 0
AllApart x [] = Unit
AllApart x (y ∷ ys) = Apart x y × AllApart x ys

abbrev pub Disjoint : List Block → Type 0
Disjoint [] = Unit
Disjoint (x ∷ xs) = AllApart x xs × Disjoint xs

-- A block has an address, it holds what the program asked for, and its size is a `size_t`.
abbrev pub Sound : Block → Type 0
Sound x = (0 < x.address) × (x.asize ≤ x.size) × (x.size + 2 * sizeof_header < word)

abbrev pub AllSound : List Block → Type 0
AllSound [] = Unit
AllSound (x ∷ xs) = Sound x × AllSound xs

-- Blocks inside the block `x`.
abbrev pub Inside : Block → List Block → Type 0
Inside x [] = Unit
Inside x (p ∷ ps) = (x.address ≤ p.address) × (end_of p ≤ end_of x) × Inside x ps

pub AllSound-append : (xs ys : List Block) → AllSound xs → AllSound ys → AllSound (xs ++ ys)
AllSound-append [] ys h k = k
AllSound-append (x ∷ xs) ys h k = (h.0, AllSound-append xs ys h.1 k)

pub AllSound-right : (xs ys : List Block) → AllSound (xs ++ ys) → AllSound ys
AllSound-right [] ys h = h
AllSound-right (x ∷ xs) ys h = AllSound-right xs ys h.1

pub AllSound-left : (xs ys : List Block) → AllSound (xs ++ ys) → AllSound xs
AllSound-left [] ys h = tt
AllSound-left (x ∷ xs) ys h = (h.0, AllSound-left xs ys h.1)

AllApart-inside :
    (x p : Block) (ys : List Block)
    → x.address ≤ p.address
    → end_of p ≤ end_of x
    → AllApart x ys
    → AllApart p ys
AllApart-inside x p [] h k v = tt
AllApart-inside x p (y ∷ ys) h k (a, v) = (ground arith, AllApart-inside x p ys h k v)

AllApart-fresh :
    (w x : Block) (ps ys : List Block)
    → Inside x ps
    → Apart w x
    → AllApart w ys
    → AllApart w (ps ++ ys)
AllApart-fresh w x [] ys i a v = v
AllApart-fresh w x (p ∷ ps) ys (l, r, i) a v = (ground arith, AllApart-fresh w x ps ys i a v)

AllApart-replace :
    (w x : Block) (xs ps ys : List Block)
    → Inside x ps
    → AllApart w (xs ++ x ∷ ys)
    → AllApart w (xs ++ (ps ++ ys))
AllApart-replace w x [] ps ys i (a, v) = AllApart-fresh w x ps ys i a v
AllApart-replace w x (u ∷ xs) ps ys i (a, v) = (a, AllApart-replace w x xs ps ys i v)

AllApart-append :
    (w : Block) (ps ys : List Block) → AllApart w ps → AllApart w ys → AllApart w (ps ++ ys)
AllApart-append w [] ys h v = v
AllApart-append w (p ∷ ps) ys h v = (h.0, AllApart-append w ps ys h.1 v)

Disjoint-fresh :
    (x : Block) (ps ys : List Block)
    → Inside x ps
    → Disjoint ps
    → AllApart x ys
    → Disjoint ys
    → Disjoint (ps ++ ys)
Disjoint-fresh x [] ys i d a v = v
Disjoint-fresh x (p ∷ ps) ys (l, r, i) (d, ds) a v =
    (AllApart-append p ps ys d (AllApart-inside x p ys l r a), Disjoint-fresh x ps ys i ds a v)

-- A block may be replaced by disjoint blocks inside it.
pub Disjoint-replace :
    (x : Block) (xs ps ys : List Block)
    → Inside x ps
    → Disjoint ps
    → Disjoint (xs ++ x ∷ ys)
    → Disjoint (xs ++ (ps ++ ys))
Disjoint-replace x [] ps ys i d (a, v) = Disjoint-fresh x ps ys i d a v
Disjoint-replace x (w ∷ xs) ps ys i d (a, v) =
    (AllApart-replace w x xs ps ys i a, Disjoint-replace x xs ps ys i d v)

-- No other header lies in the block `x`.
module _ (x : Block) (p : Ptr) (from : x.address ≤ p) (to : p < end_of x) where
  Avoids-apart : (ys : List Block) → AllApart x ys → Avoids p ys
  Avoids-apart [] v = tt
  Avoids-apart (y ∷ ys) v = (ground (arith, v), Avoids-apart ys v.1)

  pub Avoids-right : (xs ys : List Block) → Disjoint (xs ++ x ∷ ys) → Avoids p ys
  Avoids-right [] ys v = Avoids-apart ys v.0
  Avoids-right (w ∷ xs) ys v = Avoids-right xs ys v.1

  clear_of : (w : Block) (xs ys : List Block) → AllApart w (xs ++ x ∷ ys) → w.address ≢ p
  clear_of w [] ys v = ground (arith, v)
  clear_of w (u ∷ xs) ys v = clear_of w xs ys v.1

  pub Avoids-left : (xs ys : List Block) → Disjoint (xs ++ x ∷ ys) → Avoids p xs
  Avoids-left [] ys v = tt
  Avoids-left (w ∷ xs) ys v = (clear_of w xs ys v.0, Avoids-left xs ys v.1)
