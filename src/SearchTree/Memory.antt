-- ===== src/SearchTree/Memory.antt =====
-- The nodes that the tree functions allocate and free, counted by address.
use school_projects.Base.{ℕ, Bool, ◌≡◌, refl, List, [], ◌∷◌, ◌++◌, ◌+◌, arith, if◌then◌else◌, ◌==◌}
use school_projects.Base.Int.{ℤ}
use school_projects.Memory.{Ptr, null}
use school_projects.SearchTree.{
  Tree, leaf, node, search, insert, replace_by_rightmost, delete_root, delete, dispose,
}

-- How often an address stands in a list, and how many nodes of a tree are there.
abbrev pub count : Ptr → List Ptr → ℕ
count a [] = 0
count a (p ∷ ps) = (if p == a then 1 else 0) + count a ps

abbrev pub owned : Ptr → Tree → ℕ
owned a leaf = 0
owned a (node p key cont l r) = (if p == a then 1 else 0) + owned a l + owned a r

abbrev pub has_key : ℤ → Tree → Bool
has_key k t = (search t k k).0

count-append : (a : Ptr) (ps qs : List Ptr) → count a (ps ++ qs) ≡ count a ps + count a qs
count-append a [] qs = omega arith
count-append a (p ∷ ps) qs = omega (arith, count-append a ps qs)

-- `BSTInsert` adds the node that `malloc` returned, unless the key was found or there is no
-- memory, and keeps all the others.
pub owned-insert :
    (a p : Ptr) (t : Tree) (k c : ℤ)
    → owned a (insert p t k c)
      ≡ owned a t + (if has_key k t then 0 else (if p == null then 0 else count a (p ∷ [])))
unfolding insert search
owned-insert a p leaf k c = ground arith
owned-insert a p (node q key cont l r) k c =
    ground (arith, owned-insert a p l k c, owned-insert a p r k c)

owned-replace_by_rightmost :
    (a : Ptr) (replaced : ℤ × ℤ) (t : Tree)
    → owned a (replace_by_rightmost replaced t).1 + count a (replace_by_rightmost replaced t).2
      ≡ owned a t
unfolding replace_by_rightmost
owned-replace_by_rightmost a replaced leaf = omega arith
owned-replace_by_rightmost a replaced (node p key cont l leaf) = omega arith
owned-replace_by_rightmost a replaced (node p key cont l (node q key' cont' l' r')) =
    omega (arith, owned-replace_by_rightmost a replaced (node q key' cont' l' r'))

owned-delete_root :
    (a p : Ptr) (key cont : ℤ) (l r : Tree)
    → owned a (delete_root p (key, cont) l r).0 + count a (delete_root p (key, cont) l r).1
      ≡ owned a (node p key cont l r)
unfolding delete_root
owned-delete_root a p key cont leaf leaf = omega arith
owned-delete_root a p key cont leaf (node q key' cont' l r) = omega arith
owned-delete_root a p key cont (node q key' cont' l r) leaf = omega arith
owned-delete_root a p key cont (node q key' cont' l r) (node _ _ _ _ _) =
    omega (arith, owned-replace_by_rightmost a (key, cont) (node q key' cont' l r))

-- `BSTDelete` frees exactly the nodes that it takes out: each address is owned by the tree before
-- as often as it is owned afterwards or freed.
pub owned-delete :
    (a : Ptr) (t : Tree) (k : ℤ) → owned a (delete t k).0 + count a (delete t k).1 ≡ owned a t
unfolding delete
owned-delete a leaf k = omega arith
owned-delete a (node p key cont l r) k =
    ground (arith, owned-delete a l k, owned-delete a r k, owned-delete_root a p key cont l r)

-- `BSTDispose` leaves the empty tree, and frees each address as often as the tree owned it.
pub dispose-frees :
    (a : Ptr) (t : Tree) → ((dispose t).0 ≡ leaf) × (count a (dispose t).1 ≡ owned a t)
unfolding dispose
dispose-frees a leaf = (refl, refl)
dispose-frees a (node p key cont l r) = (
  refl,
  omega (
    arith,
    count-append a (dispose r).1 ((dispose l).1 ++ (p ∷ [])),
    count-append a (dispose l).1 (p ∷ []),
    (dispose-frees a l).1,
    (dispose-frees a r).1,
  ),
)
