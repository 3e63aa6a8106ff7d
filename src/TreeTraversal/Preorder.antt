-- ===== src/TreeTraversal/Preorder.antt =====
-- `BTPreorder` and `Leftmost_Preorder`.
use school_projects.Base.{
  ℕ, zero, suc, ◌+◌, ◌<◌, ◌≤◌, ◌≡◌, refl, ◌∙◌, sym, ap, ◌++◌, append_assoc, append-nil, List, [],
  ◌∷◌, false, arith, ◌==◌, length,
}
use school_projects.Memory.Returns
use school_projects.Memory.Returns.{Returns}
use school_projects.TreeTraversal.{
  Tree, leaf, node, Machine, Event, visit, maxstack, bt_work_out, right, s_init_p, s_empty_p,
  leftmost_preorder, preorder_loop, bt_preorder,
}
use school_projects.TreeTraversal.Stacks.{
  Holds, pushed, Holds-pushed, Holds-popped, s_push_p-done, s_top_pop_p-done,
}
use school_projects.TreeTraversal.Spine.{
  height, size, spine, Fits, spine-Fits, rounds, rounds-spine, then_events,
}

-- The root, the left subtree, the right subtree.
abbrev pub preorder : Tree → List Event
preorder leaf = []
preorder (node p cont l r) = visit cont ∷ (preorder l ++ preorder r)

-- What is left to visit.
abbrev pending : List Tree → List Event
pending [] = []
pending (leaf ∷ ts) = pending ts
pending (node p cont l r ∷ ts) = preorder r ++ pending ts

-- What is visited before a loop begins.
abbrev lefts : Tree → List Event
lefts leaf = []
lefts (node p cont l r) = visit cont ∷ lefts l

pending-spine :
    (t : Tree) (ts : List Tree) → lefts t ++ pending (spine t ts) ≡ preorder t ++ pending ts
pending-spine leaf ts = refl
pending-spine (node p cont l r) ts =
    ap (λ es. visit cont ∷ es)
      (pending-spine l (node p cont l r ∷ ts)
        ∙ sym (append_assoc (preorder l) (preorder r) (pending ts)))

leftmost_preorder_lem :
    (t : Tree) (ts : List Tree) (w : Machine)
    → Holds w.pointers ts
    → length ts + height t ≤ 29
    → Returns
        (λ _ w'. Holds w'.pointers (spine t ts) × (w'.events ≡ w.events ++ lefts t))
        (leftmost_preorder t w)
unfolding leftmost_preorder bt_work_out
leftmost_preorder_lem leaf ts w is fits = (is, sym (append-nil w.events))
leftmost_preorder_lem (node p cont l r) ts w is fits =
    let t = node p cont l r in
    let es = w.events ++ (visit cont ∷ []) in
    let w1 : Machine = record w { events = es } in
    simp (s_push_p-done w1 t ts is (ground arith)) (
      Returns.weaken _ (leftmost_preorder l (record w1 { pointers = pushed w.pointers t }))
        (leftmost_preorder_lem l (t ∷ ts) (record w1 { pointers = pushed w.pointers t })
          (Holds-pushed w.pointers t ts is (ground arith)) (ground arith))
        λ _ _ (is', more). (is', then_events w.events (visit cont ∷ []) (lefts l) refl more))

preorder_loop_lem :
    (k : ℕ) (ts : List Tree) (w : Machine)
    → Holds w.pointers ts
    → Fits ts
    → rounds ts < k
    → Returns (λ _ w'. w'.events ≡ w.events ++ pending ts) (preorder_loop k w)
unfolding preorder_loop s_empty_p right
preorder_loop_lem zero ts w is fits enough = absurd (omega arith)
preorder_loop_lem (suc k) [] w is fits enough = simp (is.top_is) (sym (append-nil w.events))
preorder_loop_lem (suc k) (leaf ∷ ts) w is fits enough = elim fits [ ]
preorder_loop_lem (suc k) (node p cont l r ∷ ts) w is fits enough =
    let some_left : (w.pointers.top == 0) ≡ false = ground (arith, is.top_is) in
    simp (some_left, s_top_pop_p-done w (node p cont l r) ts is)
      (Returns.bind _ (leftmost_preorder r _) _
        (leftmost_preorder_lem r ts _ (Holds-popped w.pointers (node p cont l r) ts is)
          (ground arith))
        λ _ w1 (is1, more).
          Returns.weaken _ (preorder_loop k w1)
            (preorder_loop_lem k (spine r ts) w1 is1 (spine-Fits r ts (ground arith) fits.1)
              (omega (arith, rounds-spine r ts)))
            λ _ _ after.
              then_events w.events (lefts r) (pending (spine r ts)) more after
              ∙ ap (λ es. w.events ++ es) (pending-spine r ts))

-- If the tree is at most 29 high and the fuel exceeds its nodes, `BTPreorder` visits every node once,
-- in the order of the recursive definition, and does nothing else.
pub bt_preorder-visits :
    (t : Tree) (fuel : ℕ) (w : Machine)
    → length w.pointers.a ≡ maxstack
    → height t ≤ 29
    → size t < fuel
    → Returns (λ _ w'. w'.events ≡ w.events ++ preorder t) (bt_preorder fuel t w)
unfolding bt_preorder s_init_p
bt_preorder-visits leaf fuel w allocated low enough = sym (append-nil w.events)
bt_preorder-visits (node p cont l r) fuel w allocated low enough =
    let t = node p cont l r in
    Returns.bind _ (leftmost_preorder t _) _
      (leftmost_preorder_lem t [] _ (record { allocated = allocated; top_is = refl; stored = tt })
        (omega (arith, low)))
      λ _ w1 (is1, more).
        Returns.weaken _ (preorder_loop fuel w1)
          (preorder_loop_lem fuel (spine t []) w1 is1 (spine-Fits t [] (omega (arith, low)) tt)
            (omega (arith, rounds-spine t [])))
          λ _ _ after.
            then_events w.events (lefts t) (pending (spine t [])) more after
            ∙ ap (λ es. w.events ++ es) (pending-spine t [] ∙ append-nil (preorder t))
