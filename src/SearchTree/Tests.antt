-- ===== src/SearchTree/Tests.antt =====
-- The theorems on the binary search tree, applied to a tree of three nodes.
use school_projects.Base.{◌+◌, ◌≡◌, false, arith, if◌then◌else◌}
use school_projects.Base.Int.{pos, eqb_ℤ}
use school_projects.SearchTree.{Tree, leaf, node, search, delete}
use school_projects.SearchTree.Order.{IsOrdered}
use school_projects.SearchTree.Delete.{search-delete}
use school_projects.SearchTree.Memory.{count, owned, owned-delete}

abbrev tree : Tree
tree =
    node 1 (pos 5) (pos 50) (node 2 (pos 3) (pos 30) leaf leaf) (node 3 (pos 8) (pos 80) leaf leaf)

tree-IsOrdered : IsOrdered tree
tree-IsOrdered = ground arith

search-delete_example :
    search (delete tree (pos 5)).0 (pos 3) (pos 0)
    ≡ (if eqb_ℤ (pos 5) (pos 3) then (false, pos 0) else search tree (pos 3) (pos 0))
search-delete_example = search-delete tree (pos 5) (pos 3) (pos 0) tree-IsOrdered

owned-delete_example :
    owned 2 (delete tree (pos 5)).0 + count 2 (delete tree (pos 5)).1 ≡ owned 2 tree
owned-delete_example = owned-delete 2 tree (pos 5)
