-- ===== src/TreeTraversal/Inorder.antt =====
-- `BTInorder` and `Leftmost_Inorder`.
use school_projects.Base.{
  ℕ, zero, suc, ◌+◌, ◌<◌, ◌≤◌, ◌≡◌, refl, ◌∙◌, sym, ap, ◌++◌, append_assoc, append-nil, List, [],
  ◌∷◌, false, arith, ◌==◌, length,
}
use school_projects.Memory.Returns
use school_projects.Memory.Returns.{Returns}
use school_projects.TreeTraversal.{
  Tree, leaf, node, Machine, Event, visit, maxstack, bt_work_out, right, s_init_p, s_empty_p,
  leftmost_inorder, inorder_loop, bt_inorder,
}
use school_projects.TreeTraversal.Stacks.{
  Holds, Holds-pushed, Holds-popped, s_push_p-done, s_top_pop_p-done,
}
use school_projects.TreeTraversal.Spine.{
  height, size, spine, Fits, spine-Fits, rounds, rounds-spine, then_events,
}

-- The left subtree, the root, the right subtree.
abbrev pub inorder : Tree → List Event
inorder leaf = []
inorder (node p cont l r) = inorder l ++ (visit cont ∷ inorder r)

-- What is left to visit.
abbrev pending : List Tree → List Event
pending [] = []
pending (leaf ∷ ts) = pending ts
pending (node p cont l r ∷ ts) = visit cont ∷ (inorder r ++ pending ts)

pending-spine : (t : Tree) (ts : List Tree) → pending (spine t ts) ≡ inorder t ++ pending ts
pending-spine leaf ts = refl
pending-spine (node p cont l r) ts =
    pending-spine l (node p cont l r ∷ ts)
    ∙ sym (append_assoc (inorder l) (visit cont ∷ inorder r) (pending ts))

leftmost_inorder_lem :
    (t : Tree) (ts : List Tree) (w : Machine)
    → Holds w.pointers ts
    → length ts + height t ≤ 29
    → Returns
        (λ _ w'. Holds w'.pointers (spine t ts) × (w'.events ≡ w.events))
        (leftmost_inorder t w)
unfolding leftmost_inorder
leftmost_inorder_lem leaf ts w is fits = (is, refl)
leftmost_inorder_lem (node p cont l r) ts w is fits =
    let t = node p cont l r in
    simp (s_push_p-done w t ts is (ground arith)) (
      leftmost_inorder_lem l (t ∷ ts) _ (Holds-pushed w.pointers t ts is (ground arith))
        (ground arith))

inorder_loop_lem :
    (k : ℕ) (ts : List Tree) (w : Machine)
    → Holds w.pointers ts
    → Fits ts
    → rounds ts < k
    → Returns (λ _ w'. w'.events ≡ w.events ++ pending ts) (inorder_loop k w)
unfolding inorder_loop s_empty_p right bt_work_out
inorder_loop_lem zero ts w is fits enough = absurd (omega arith)
inorder_loop_lem (suc k) [] w is fits enough = simp (is.top_is) (sym (append-nil w.events))
inorder_loop_lem (suc k) (leaf ∷ ts) w is fits enough = elim fits [ ]
inorder_loop_lem (suc k) (node p cont l r ∷ ts) w is fits enough =
    let some_left : (w.pointers.top == 0) ≡ false = ground (arith, is.top_is) in
    simp (some_left, s_top_pop_p-done w (node p cont l r) ts is)
      (Returns.bind _ (leftmost_inorder r _) _
        (leftmost_inorder_lem r ts _ (Holds-popped w.pointers (node p cont l r) ts is)
          (ground arith))
        λ _ w1 (is1, same).
          Returns.weaken _ (inorder_loop k w1)
            (inorder_loop_lem k (spine r ts) w1 is1 (spine-Fits r ts (ground arith) fits.1)
              (omega (arith, rounds-spine r ts)))
            λ _ _ after.
              then_events w.events (visit cont ∷ []) (pending (spine r ts)) same after
              ∙ ap (λ es. w.events ++ (visit cont ∷ es)) (pending-spine r ts))

-- If the tree is at most 29 high and the fuel exceeds its nodes, `BTInorder` visits every node once,
-- in the order of the recursive definition, and does nothing else.
pub bt_inorder-visits :
    (t : Tree) (fuel : ℕ) (w : Machine)
    → length w.pointers.a ≡ maxstack
    → height t ≤ 29
    → size t < fuel
    → Returns (λ _ w'. w'.events ≡ w.events ++ inorder t) (bt_inorder fuel t w)
unfolding bt_inorder s_init_p
bt_inorder-visits leaf fuel w allocated low enough = sym (append-nil w.events)
bt_inorder-visits (node p cont l r) fuel w allocated low enough =
    let t = node p cont l r in
    Returns.bind _ (leftmost_inorder t _) _
      (leftmost_inorder_lem t [] _ (record { allocated = allocated; top_is = refl; stored = tt })
        (omega (arith, low)))
      λ _ w1 (is1, same).
        Returns.weaken _ (inorder_loop fuel w1)
          (inorder_loop_lem fuel (spine t []) w1 is1 (spine-Fits t [] (omega (arith, low)) tt)
            (omega (arith, rounds-spine t [])))
          λ _ _ after.
            after
            ∙ ap (λ es. es ++ pending (spine t [])) same
            ∙ ap (λ es. w.events ++ es) (pending-spine t [] ∙ append-nil (inorder t))
