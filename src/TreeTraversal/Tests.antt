-- ===== src/TreeTraversal/Tests.antt =====
-- The theorems on the tree without recursion, applied to a tree of three nodes and to a full stack.
use school_projects.Base.{ℕ, zero, suc, ◌≡◌, refl, ◌++◌, true, List, [], ◌∷◌, arith}
use school_projects.Base.Int.{pos}
use school_projects.Memory.Returns.{Returns}
use school_projects.TreeTraversal.{Tree, leaf, node, Machine, bt_postorder, bt_dispose_tree}
use school_projects.TreeTraversal.Postorder.{postorder, bt_postorder-visits}
use school_projects.TreeTraversal.Dispose.{frees, bt_dispose_tree-frees}

abbrev slots : {A : Type 0} → ℕ → A → List A
slots zero x = []
slots (suc n) x = x ∷ slots n x

abbrev machine : Machine
machine = record {
  pointers = record { a = slots 30 leaf; top = 7 };
  flags = record { a = slots 30 true; top = 0 };
  events = [];
}

abbrev tree : Tree
tree = node 1 (pos 5) (node 2 (pos 3) leaf leaf) (node 3 (pos 8) leaf leaf)

bt_postorder-visits_example :
    Returns (λ _ w'. w'.events ≡ machine.events ++ postorder tree) (bt_postorder 7 tree machine)
bt_postorder-visits_example =
    bt_postorder-visits tree 7 machine refl refl (ground arith) (ground arith)

bt_dispose_tree-frees_example :
    Returns
      (λ root w'. (root ≡ leaf) × (w'.events ≡ machine.events ++ frees tree))
      (bt_dispose_tree 6 tree machine)
bt_dispose_tree-frees_example =
    bt_dispose_tree-frees tree 6 machine refl (ground arith) (ground arith)

abbrev full : Machine
full = record machine { pointers = record { a = slots 30 leaf; top = 29 } }
