-- ===== src/TreeTraversal/Dispose.antt =====
-- `BTDisposeTree`.
use school_projects.Base.{
  ℕ, zero, suc, ◌+◌, ◌*◌, ◌<◌, ◌≤◌, ◌≡◌, refl, ◌∙◌, sym, ap, ◌++◌, ◌&&◌, append_assoc, append-nil,
  List, [], ◌∷◌, false, arith, ◌==◌, length,
}
use school_projects.Memory.{Ptr}
use school_projects.Base.Int.{ℤ}
use school_projects.Memory.Returns
use school_projects.Memory.Returns.{Returns}
use school_projects.TreeTraversal.{
  Tree, leaf, node, is_leaf, Machine, Event, freed, maxstack, s_init_p, s_empty_p, dispose_body,
  dispose_rounds, bt_dispose_tree,
}
use school_projects.TreeTraversal.Stacks.{
  Holds, Holds-pushed, Holds-popped, s_push_p-done, s_top_pop_p-done,
}
use school_projects.TreeTraversal.Spine.{height, size, Fits, then_events}

-- Each node once, a node before its subtrees.
abbrev pub frees : Tree → List Event
frees leaf = []
frees (node p cont l r) = freed p ∷ (frees l ++ frees r)

abbrev pending : List Tree → List Event
pending [] = []
pending (t ∷ ts) = frees t ++ pending ts

abbrev weight : List Tree → ℕ
weight [] = 0
weight (t ∷ ts) = 2 * size t + weight ts

abbrev rounds : Tree → ℕ
rounds leaf = 1
rounds (node p cont l r) = 2 * size (node p cont l r)

-- The loop has not ended.
abbrev Busy : Tree → List Tree → Type 0
Busy leaf [] = ⊥
Busy _ _ = Unit

Busy-cons : (l t : Tree) (ts : List Tree) → Busy l (t ∷ ts)
Busy-cons leaf t ts = tt
Busy-cons (node p cont l r) t ts = tt

abbrev pub Disposed : Tree → List Tree → List Event → Tree → Machine → Type 0
Disposed root ts es root' w' = (root' ≡ leaf) × (w'.events ≡ es ++ (frees root ++ pending ts))

freed_next :
    (es : List Event) (p : Ptr) (cont : ℤ) (l r : Tree) (ts : List Tree) {es' : List Event}
    → es' ≡ (es ++ (freed p ∷ [])) ++ (frees l ++ (frees r ++ pending ts))
    → es' ≡ es ++ (frees (node p cont l r) ++ pending ts)
freed_next es p cont l r ts after =
    then_events es (freed p ∷ []) (frees l ++ (frees r ++ pending ts)) refl after
    ∙ ap (λ t. es ++ (freed p ∷ t)) (sym (append_assoc (frees l) (frees r) (pending ts)))

dispose_rounds_lem :
    (k : ℕ) (root : Tree) (ts : List Tree) (w : Machine)
    → Holds w.pointers ts
    → Fits ts
    → length ts + height root ≤ 29
    → Busy root ts
    → rounds root + weight ts < suc k
    → Returns (Disposed root ts w.events) (dispose_rounds k root w)
unfolding dispose_rounds dispose_body s_empty_p
dispose_rounds_lem zero leaf ts w is fits low busy enough = absurd (omega arith)
dispose_rounds_lem zero (node p cont l r) ts w is fits low busy enough = absurd (omega arith)
dispose_rounds_lem (suc k) leaf [] w is fits low busy enough = elim busy [ ]
dispose_rounds_lem (suc k) leaf (leaf ∷ ts) w is fits low busy enough = elim fits [ ]
dispose_rounds_lem (suc k) leaf (node p cont l r ∷ ts) w is fits low busy enough =
    let t = node p cont l r in
    let some_left : (w.pointers.top == 0) ≡ false = ground (arith, is.top_is) in
    simp (some_left, s_top_pop_p-done w t ts is)
      (dispose_rounds_lem k t ts _ (Holds-popped w.pointers t ts is) fits.1 fits.0 tt (omega arith))
dispose_rounds_lem (suc k) (node p cont leaf leaf) [] w is fits low busy enough =
    simp (is.top_is) (refl, refl)
dispose_rounds_lem (suc k) (node p cont leaf leaf) (t ∷ ts) w is fits low busy enough =
    let some_left : (w.pointers.top == 0) ≡ false = ground (arith, is.top_is) in
    simp some_left (
      Returns.weaken _ (dispose_rounds k leaf _)
        (dispose_rounds_lem k leaf (t ∷ ts) _ is fits (ground arith) tt (omega arith))
        λ _ _ (done_, after). (done_, freed_next w.events p cont leaf leaf (t ∷ ts) after))
dispose_rounds_lem (suc k) (node p cont (node q c l' r') leaf) ts w is fits low busy enough =
    let l = node q c l' r' in
    Returns.weaken _ (dispose_rounds k l _)
      (dispose_rounds_lem k l ts _ is fits (ground arith) tt (omega arith))
      λ _ _ (done_, after). (done_, freed_next w.events p cont l leaf ts after)
dispose_rounds_lem (suc k) (node p cont l (node q c l' r')) ts w is fits low busy enough =
    let r = node q c l' r' in
    let more : (is_leaf l && (suc w.pointers.top == 0)) ≡ false = ground arith in
    simp (s_push_p-done w r ts is (ground arith), more)
      (Returns.weaken _ (dispose_rounds k l _)
        (dispose_rounds_lem k l (r ∷ ts) _ (Holds-pushed w.pointers r ts is (ground arith))
          (ground arith, fits) (ground arith) (Busy-cons l r ts) (ground arith))
        λ _ _ (done_, after). (done_, freed_next w.events p cont l r ts after))

-- If the tree is at most 29 high and the fuel is twice its nodes, `BTDisposeTree` frees every node once, a
-- node before its subtrees, does nothing else, and leaves the empty tree.
pub bt_dispose_tree-frees :
    (t : Tree) (fuel : ℕ) (w : Machine)
    → length w.pointers.a ≡ maxstack
    → height t ≤ 29
    → 2 * size t ≤ fuel
    → Returns
        (λ root w'. (root ≡ leaf) × (w'.events ≡ w.events ++ frees t))
        (bt_dispose_tree fuel t w)
unfolding bt_dispose_tree s_init_p
bt_dispose_tree-frees leaf fuel w allocated low enough = (refl, sym (append-nil w.events))
bt_dispose_tree-frees (node p cont l r) fuel w allocated low enough =
    let t = node p cont l r in
    Returns.weaken _ (dispose_rounds fuel t _)
      (dispose_rounds_lem fuel t [] _ (record { allocated = allocated; top_is = refl; stored = tt })
        tt (omega (arith, low)) tt (omega (arith, enough)))
      λ _ _ (gone, after). (gone, after ∙ ap (λ es. w.events ++ es) (append-nil (frees t)))
