-- ===== src/SearchTree/Delete.antt =====
-- `ReplaceByRightmost` and `BSTDelete`.
use school_projects.Base.{inl, inr, Bool-cases, subst, ◌≡◌, true, false, arith, if◌then◌else◌}
use school_projects.Base.Int.{ℤ, ◌<ℤ◌, eqb_ℤ, ltb_ℤ, eq_of_parts}
use school_projects.Memory.{Ptr}
use school_projects.SearchTree.{Tree, leaf, node, search, replace_by_rightmost, delete_root, delete}
use school_projects.SearchTree.Order.{
  AllBelow, AllAbove, IsOrdered, AllBelow-weaken, AllAbove-weaken, search-AllBelow, search-AllAbove,
}

-- What `ReplaceByRightmost` leaves of a tree that is not empty: the node that it moves has the greatest
-- key, and a search finds all but that key.
record IsRightmost (key : ℤ) (t : Tree) (moved : ℤ × ℤ) (rest : Tree) : Type 0 where
  found : (k x : ℤ) → eqb_ℤ moved.0 k ≡ true → search t k x ≡ (true, moved.1)
  below : AllBelow moved.0 rest
  ordered : IsOrdered rest
  bounded : (b : ℤ) → AllBelow b t → (moved.0 <ℤ b) × AllBelow b rest
  above : (b : ℤ) → AllAbove b t → (b <ℤ moved.0) × AllAbove b rest
  others : (k x : ℤ) → search rest k x ≡ (if eqb_ℤ moved.0 k then (false, x) else search t k x)

replace_by_rightmost-IsRightmost :
    (replaced : ℤ × ℤ) (p : Ptr) (key cont : ℤ) (l r : Tree)
    → IsOrdered (node p key cont l r)
    → IsRightmost key
        (node p key cont l r)
        (replace_by_rightmost replaced (node p key cont l r)).0
        (replace_by_rightmost replaced (node p key cont l r)).1
unfolding replace_by_rightmost search
replace_by_rightmost-IsRightmost replaced p key cont l leaf (below, above, left, right) = record {
  found = λ k x h. ground arith;
  below = below;
  ordered = left;
  bounded = λ b all. (all.0, all.1);
  above = λ b all. (all.0, all.1);
  others = λ k x. ground (arith, search-AllBelow key l k x below);
}
replace_by_rightmost-IsRightmost replaced p key cont l (node q key' cont' l' r')
      (below, above, left, right) =
    let i = replace_by_rightmost-IsRightmost replaced q key' cont' l' r' right in
    let s = replace_by_rightmost replaced (node q key' cont' l' r') in
    let greater = i.above key above in
    record {
      found = λ k x h. ground (arith, i.found k x, greater.0);
      below = (greater.0, AllBelow-weaken key s.0.0 l greater.0 below, i.below);
      ordered = (below, greater.1, left, i.ordered);
      bounded = λ b all. ((i.bounded b all.2).0, (all.0, all.1, (i.bounded b all.2).1));
      above = λ b all. ((i.above b all.2).0, (all.0, all.1, (i.above b all.2).1));
      others = λ k x. ground (arith, i.others k x, greater.0);
    }

-- What `BSTDelete` leaves of a tree: the order, the bounds, and all the keys but one.
record IsWithout (gone : ℤ) (t rest : Tree) : Type 0 where
  ordered : IsOrdered rest
  bounded : (b : ℤ) → AllBelow b t → AllBelow b rest
  above : (b : ℤ) → AllAbove b t → AllAbove b rest
  others : (k x : ℤ) → search rest k x ≡ (if eqb_ℤ gone k then (false, x) else search t k x)

delete_root-IsWithout :
    (p : Ptr) (key cont : ℤ) (l r : Tree)
    → IsOrdered (node p key cont l r)
    → IsWithout key (node p key cont l r) (delete_root p (key, cont) l r).0
unfolding delete_root search
delete_root-IsWithout p key cont leaf leaf is = record {
  ordered = tt;
  bounded = λ b all. tt;
  above = λ b all. tt;
  others = λ k x. ground arith;
}
delete_root-IsWithout p key cont (node q key' cont' l r) leaf (below, _, left, _) = record {
  ordered = left;
  bounded = λ b all. all.1;
  above = λ b all. all.1;
  others = λ k x. ground (arith, search-AllBelow key (node q key' cont' l r) k x below);
}
delete_root-IsWithout p key cont leaf (node q key' cont' l r) (_, above, _, right) = record {
  ordered = right;
  bounded = λ b all. all.2;
  above = λ b all. all.2;
  others = λ k x. ground (arith, search-AllAbove key (node q key' cont' l r) k x above);
}
delete_root-IsWithout p key cont (node q key' cont' l r) (node q' key2 cont2 l' r')
      (below, above, left, right) =
    let t = node q key' cont' l r in
    let u = node q' key2 cont2 l' r' in
    let i = replace_by_rightmost-IsRightmost (key, cont) q key' cont' l r left in
    let s = replace_by_rightmost (key, cont) t in
    let less = (i.bounded key below).0 in
    record {
      ordered = (i.below, AllAbove-weaken key s.0.0 u less above, i.ordered, right);
      bounded = λ b all. ((i.bounded b all.1).0, (i.bounded b all.1).1, all.2);
      above = λ b all. ((i.above b all.1).0, (i.above b all.1).1, all.2);
      others = λ k x. ground (
        arith,
        less,
        i.others k x,
        i.found k x,
        search-AllBelow key t k x below,
        search-AllBelow s.0.0 s.1 k x i.below,
        search-AllAbove key u k x above,
      );
    }

module _ (k : ℤ) (p : Ptr) (key cont : ℤ) (l r : Tree) (is : IsOrdered (node p key cont l r)) where
  on_left :
      (rest : Tree)
      → ltb_ℤ k key ≡ true
      → IsWithout k l rest
      → IsWithout k (node p key cont l r) (node p key cont rest r)
  unfolding search
  on_left rest less i = record {
    ordered = (i.bounded key is.0, is.1, i.ordered, is.3);
    bounded = λ b all. (all.0, i.bounded b all.1, all.2);
    above = λ b all. (all.0, i.above b all.1, all.2);
    others = λ k' x. ground (arith, i.others k' x);
  }

  on_right :
      (rest : Tree)
      → ltb_ℤ key k ≡ true
      → IsWithout k r rest
      → IsWithout k (node p key cont l r) (node p key cont l rest)
  unfolding search
  on_right rest more i = record {
    ordered = (is.0, i.above key is.1, is.2, i.ordered);
    bounded = λ b all. (all.0, all.1, i.bounded b all.2);
    above = λ b all. (all.0, all.1, i.above b all.2);
    others = λ k' x. ground (arith, i.others k' x);
  }

  at_root : key ≡ k → IsWithout k (node p key cont l r) (delete_root p (key, cont) l r).0
  at_root equal =
      subst (λ k. IsWithout k (node p key cont l r) (delete_root p (key, cont) l r).0) equal
        (delete_root-IsWithout p key cont l r is)

search-without_leaf :
    (k k' x : ℤ) → search leaf k' x ≡ (if eqb_ℤ k k' then (false, x) else search leaf k' x)
unfolding search
search-without_leaf k k' x = ground arith

delete-IsWithout : (t : Tree) (k : ℤ) → IsOrdered t → IsWithout k t (delete t k).0
unfolding delete
delete-IsWithout leaf k is = record {
  ordered = tt;
  bounded = λ b all. tt;
  above = λ b all. tt;
  others = λ k' x. search-without_leaf k k' x;
}
delete-IsWithout (node p key cont l r) k is =
    let i = delete-IsWithout l k is.2 in
    let j = delete-IsWithout r k is.3 in
    elim (Bool-cases (ltb_ℤ k key)) [
      | inl less ↦ rw less (on_left k p key cont l r is (delete l k).0 less i)
      | inr not_less ↦ elim (Bool-cases (ltb_ℤ key k)) [
        | inl more ↦ rw (not_less, more) (on_right k p key cont l r is (delete r k).0 more j)
        | inr same ↦
            rw (not_less, same) (at_root k p key cont l r is (eq_of_parts key k (ground arith)))
      ]
    ]

-- `BSTDelete` keeps the keys of an ordered tree in order.
pub delete-IsOrdered : (t : Tree) (k : ℤ) → IsOrdered t → IsOrdered (delete t k).0
delete-IsOrdered t k is = (delete-IsWithout t k is).ordered

-- In an ordered tree, a search after `BSTDelete` does not find the key, and finds what was there
-- before under every other key.
pub search-delete :
    (t : Tree) (k : ℤ) (k' x : ℤ)
    → IsOrdered t
    → search (delete t k).0 k' x ≡ (if eqb_ℤ k k' then (false, x) else search t k' x)
search-delete t k k' x is = (delete-IsWithout t k is).others k' x
