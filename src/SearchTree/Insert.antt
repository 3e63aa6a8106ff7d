-- ===== src/SearchTree/Insert.antt =====
-- `BSTInsert`.
use school_projects.Base.{◌≡◌, ◌≢◌, true, arith, if◌then◌else◌}
use school_projects.Base.Int.{ℤ, ◌<ℤ◌, eqb_ℤ}
use school_projects.Memory.{Ptr, null}
use school_projects.SearchTree.{Tree, leaf, node, search, insert}
use school_projects.SearchTree.Order.{AllBelow, AllAbove, IsOrdered}

insert-AllBelow :
    (p : Ptr) (b : ℤ) (t : Tree) (k c : ℤ) → k <ℤ b → AllBelow b t → AllBelow b (insert p t k c)
unfolding insert
insert-AllBelow p b leaf k c h all = ground arith
insert-AllBelow p b (node q key cont l r) k c h (below, left, right) =
    ground (arith, insert-AllBelow p b l k c h left, insert-AllBelow p b r k c h right)

insert-AllAbove :
    (p : Ptr) (b : ℤ) (t : Tree) (k c : ℤ) → b <ℤ k → AllAbove b t → AllAbove b (insert p t k c)
unfolding insert
insert-AllAbove p b leaf k c h all = ground arith
insert-AllAbove p b (node q key cont l r) k c h (below, left, right) =
    ground (arith, insert-AllAbove p b l k c h left, insert-AllAbove p b r k c h right)

-- `BSTInsert` keeps the keys of an ordered tree in order, whether `malloc` succeeds or not.
pub insert-IsOrdered : (p : Ptr) (t : Tree) (k c : ℤ) → IsOrdered t → IsOrdered (insert p t k c)
unfolding insert
insert-IsOrdered p leaf k c is = ground arith
insert-IsOrdered p (node q key cont l r) k c (below, above, left, right) =
    let on_left : k <ℤ key → AllBelow key (insert p l k c) =
      λ h. insert-AllBelow p key l k c h below in
    let on_right : key <ℤ k → AllAbove key (insert p r k c) =
      λ h. insert-AllAbove p key r k c h above in
    ground (arith, insert-IsOrdered p l k c left, insert-IsOrdered p r k c right, on_left, on_right)

-- If `malloc` returns an address, a search after `BSTInsert` finds the new content under its key,
-- and what was there before under every other key.
pub search-insert :
    (p : Ptr) (t : Tree) (k c : ℤ) (k' x : ℤ)
    → p ≢ null
    → search (insert p t k c) k' x ≡ (if eqb_ℤ k k' then (true, c) else search t k' x)
unfolding search insert
search-insert p leaf k c k' x ne = ground arith
search-insert p (node q key cont l r) k c k' x ne =
    ground (arith, search-insert p l k c k' x ne, search-insert p r k c k' x ne)
