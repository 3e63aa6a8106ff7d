-- ===== src/TreeTraversal/Postorder.antt =====
-- `BTPostorder` and `Leftmost_Postorder`.
use school_projects.Base.{
  ℕ, zero, suc, ◌+◌, ◌*◌, ◌<◌, ◌≤◌, ◌≡◌, refl, ◌∙◌, sym, ap, ◌++◌, append_assoc, append-nil, Bool,
  List, [], ◌∷◌, true, false, arith, ◌==◌, length,
}
use school_projects.Memory.Returns
use school_projects.Memory.Returns.{Returns}
use school_projects.TreeTraversal.{
  Tree, leaf, node, Machine, Event, visit, maxstack, bt_work_out, right, s_init_p, s_init_b,
  s_empty_p, leftmost_postorder, postorder_loop, bt_postorder,
}
use school_projects.TreeTraversal.Stacks.{
  Holds, pushed, popped, Holds-pushed, Holds-popped, s_push_p-done, s_top_pop_p-done, s_push_b-done,
  s_top_pop_b-done,
}
use school_projects.TreeTraversal.Spine.{height, size, spine, Fits, spine-Fits, then_events}

-- The left subtree, the right subtree, the root.
abbrev pub postorder : Tree → List Event
postorder leaf = []
postorder (node p cont l r) = postorder l ++ (postorder r ++ (visit cont ∷ []))

abbrev trues : Tree → List Bool → List Bool
trues leaf bs = bs
trues (node p cont l r) bs = trues l (true ∷ bs)

-- What is left to visit; a flag tells whether the right subtree is left as well.
abbrev pending : List Tree → List Bool → List Event
pending (node p cont l r ∷ ts) (true ∷ bs) = postorder r ++ (visit cont ∷ pending ts bs)
pending (node p cont l r ∷ ts) (false ∷ bs) = visit cont ∷ pending ts bs
pending _ _ = []

abbrev rounds : List Tree → List Bool → ℕ
rounds (node p cont l r ∷ ts) (true ∷ bs) = suc (suc (2 * size r + rounds ts bs))
rounds (node p cont l r ∷ ts) (false ∷ bs) = suc (rounds ts bs)
rounds _ _ = 0

pending-spine :
    (t : Tree) (ts : List Tree) (bs : List Bool)
    → pending (spine t ts) (trues t bs) ≡ postorder t ++ pending ts bs
pending-spine leaf ts bs = refl
pending-spine (node p cont l r) ts bs =
    pending-spine l (node p cont l r ∷ ts) (true ∷ bs)
    ∙ ap (λ es. postorder l ++ es)
        (sym (append_assoc (postorder r) (visit cont ∷ []) (pending ts bs)))
    ∙ sym (append_assoc (postorder l) (postorder r ++ (visit cont ∷ [])) (pending ts bs))

rounds-spine :
    (t : Tree) (ts : List Tree) (bs : List Bool)
    → rounds (spine t ts) (trues t bs) ≡ 2 * size t + rounds ts bs
rounds-spine leaf ts bs = omega arith
rounds-spine (node p cont l r) ts bs =
    omega (arith, rounds-spine l (node p cont l r ∷ ts) (true ∷ bs))

length-spine :
    (t : Tree) (ts : List Tree) (bs : List Bool)
    → length ts ≡ length bs
    → length (spine t ts) ≡ length (trues t bs)
length-spine leaf ts bs h = h
length-spine (node p cont l r) ts bs h =
    length-spine l (node p cont l r ∷ ts) (true ∷ bs) (ap suc h)

leftmost_postorder_lem :
    (t : Tree) (ts : List Tree) (bs : List Bool) (w : Machine)
    → Holds w.pointers ts
    → Holds w.flags bs
    → length ts ≡ length bs
    → length ts + height t ≤ 29
    → Returns
        (λ _ w'.
          Holds w'.pointers (spine t ts) × Holds w'.flags (trues t bs) × (w'.events ≡ w.events))
        (leftmost_postorder t w)
unfolding leftmost_postorder
leftmost_postorder_lem leaf ts bs w is flags same fits = (is, flags, refl)
leftmost_postorder_lem (node p cont l r) ts bs w is flags same fits =
    let t = node p cont l r in
    let w1 : Machine = record w { pointers = pushed w.pointers t } in
    simp (s_push_p-done w t ts is (ground arith), s_push_b-done w1 true bs flags (ground arith))
      (leftmost_postorder_lem l (t ∷ ts) (true ∷ bs) _
        (Holds-pushed w.pointers t ts is (ground arith))
        (Holds-pushed w.flags true bs flags (ground arith)) (ap suc same) (ground arith))

postorder_loop_lem :
    (k : ℕ) (ts : List Tree) (bs : List Bool) (w : Machine)
    → Holds w.pointers ts
    → Holds w.flags bs
    → length ts ≡ length bs
    → Fits ts
    → rounds ts bs < k
    → Returns (λ _ w'. w'.events ≡ w.events ++ pending ts bs) (postorder_loop k w)
unfolding postorder_loop s_empty_p right bt_work_out
postorder_loop_lem zero ts bs w is flags same fits enough = absurd (omega arith)
postorder_loop_lem (suc k) [] bs w is flags same fits enough =
    simp (is.top_is) (sym (append-nil w.events))
postorder_loop_lem (suc k) (leaf ∷ ts) bs w is flags same fits enough = elim fits [ ]
postorder_loop_lem (suc k) (node p cont l r ∷ ts) [] w is flags same fits enough =
    absurd (omega arith)
postorder_loop_lem (suc k) (node p cont l r ∷ ts) (true ∷ bs) w is flags same fits enough =
    let t = node p cont l r in
    let some_left : (w.pointers.top == 0) ≡ false = ground (arith, is.top_is) in
    let w1 : Machine = record w { pointers = popped w.pointers } in
    let w2 : Machine = record w { pointers = pushed (popped w.pointers) t } in
    let w3 : Machine = record w2 { flags = popped w.flags } in
    let is1 = Holds-popped w.pointers t ts is in
    let flags1 = Holds-popped w.flags true bs flags in
    simp
      (
        some_left,
        s_top_pop_p-done w t ts is,
        s_push_p-done w1 t ts is1 (ground arith),
        s_top_pop_b-done w2 true bs flags,
        s_push_b-done w3 false bs flags1 (ground arith),
      )
      (Returns.bind _ (leftmost_postorder r _) _
        (leftmost_postorder_lem r (t ∷ ts) (false ∷ bs) _
          (Holds-pushed (popped w.pointers) t ts is1 (ground arith))
          (Holds-pushed (popped w.flags) false bs flags1 (ground arith)) same (ground arith))
        λ _ w4 (is4, flags4, unchanged).
          Returns.weaken _ (postorder_loop k w4)
            (postorder_loop_lem k (spine r (t ∷ ts)) (trues r (false ∷ bs)) w4 is4 flags4
              (length-spine r (t ∷ ts) (false ∷ bs) same)
              (spine-Fits r (t ∷ ts) (ground arith) fits)
              (omega (arith, rounds-spine r (t ∷ ts) (false ∷ bs))))
            λ _ _ after.
              after
              ∙ ap (λ es. es ++ pending (spine r (t ∷ ts)) (trues r (false ∷ bs))) unchanged
              ∙ ap (λ es. w.events ++ es) (pending-spine r (t ∷ ts) (false ∷ bs)))
postorder_loop_lem (suc k) (node p cont l r ∷ ts) (false ∷ bs) w is flags same fits enough =
    let t = node p cont l r in
    let some_left : (w.pointers.top == 0) ≡ false = ground (arith, is.top_is) in
    let w1 : Machine = record w { pointers = popped w.pointers } in
    let w2 : Machine = record w { pointers = pushed (popped w.pointers) t } in
    let w3 : Machine = record w2 { flags = popped w.flags } in
    let is1 = Holds-popped w.pointers t ts is in
    let is2 = Holds-pushed (popped w.pointers) t ts is1 (ground arith) in
    simp
      (
        some_left,
        s_top_pop_p-done w t ts is,
        s_push_p-done w1 t ts is1 (ground arith),
        s_top_pop_b-done w2 false bs flags,
        s_top_pop_p-done w3 t ts is2,
      )
      (Returns.weaken _ (postorder_loop k _)
        (postorder_loop_lem k ts bs _ (Holds-popped (pushed (popped w.pointers) t) t ts is2)
          (Holds-popped w.flags false bs flags) (omega (arith, same)) fits.1 (omega arith))
        λ _ _ after. then_events w.events (visit cont ∷ []) (pending ts bs) refl after)

-- If the tree is at most 29 high and the fuel exceeds twice its nodes, `BTPostorder` visits every node
-- once, in the order of the recursive definition, and does nothing else.
pub bt_postorder-visits :
    (t : Tree) (fuel : ℕ) (w : Machine)
    → length w.pointers.a ≡ maxstack
    → length w.flags.a ≡ maxstack
    → height t ≤ 29
    → 2 * size t < fuel
    → Returns (λ _ w'. w'.events ≡ w.events ++ postorder t) (bt_postorder fuel t w)
unfolding bt_postorder s_init_p s_init_b
bt_postorder-visits leaf fuel w allocated allocated' low enough = sym (append-nil w.events)
bt_postorder-visits (node p cont l r) fuel w allocated allocated' low enough =
    let t = node p cont l r in
    Returns.bind _ (leftmost_postorder t _) _
      (leftmost_postorder_lem t [] [] _
        (record { allocated = allocated; top_is = refl; stored = tt })
        (record { allocated = allocated'; top_is = refl; stored = tt }) refl (omega (arith, low)))
      λ _ w1 (is1, flags1, same).
        Returns.weaken _ (postorder_loop fuel w1)
          (postorder_loop_lem fuel (spine t []) (trues t []) w1 is1 flags1
            (length-spine t [] [] refl) (spine-Fits t [] (omega (arith, low)) tt)
            (omega (arith, rounds-spine t [] [])))
          λ _ _ after.
            after
            ∙ ap (λ es. es ++ pending (spine t []) (trues t [])) same
            ∙ ap (λ es. w.events ++ es) (pending-spine t [] [] ∙ append-nil (postorder t))
