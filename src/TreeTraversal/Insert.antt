-- ===== src/TreeTraversal/Insert.antt =====
-- `BTInsert`.
use school_projects.Base.{
  Bool-cases, inl, inr, ◌≡◌, refl, true, false, List, [], ◌∷◌, arith, ◌==◌, if◌then◌else◌,
}
use school_projects.Base.Int.{ℤ, ltb_ℤ}
use school_projects.Memory.{Ptr, null}
use school_projects.TreeTraversal.{
  Tree, leaf, node, Step, to_left, to_right, plug, Place, insert_loop, attach, bt_insert,
}

-- Insertion into a search tree, by recursion.
abbrev pub insert_spec : Ptr → Tree → ℤ → Tree
insert_spec p leaf content = if p == null then leaf else node p content leaf leaf
insert_spec p (node q cont l r) content =
    if ltb_ℤ content cont
    then node q cont (insert_spec p l content) r
    else (if ltb_ℤ cont content then node q cont l (insert_spec p r content) else node q cont l r)

-- The code after the loop.
abbrev finish : Ptr → Tree → Place → ℤ → Tree
finish p root place content =
    if place.found
    then root
    else (if p == null
        then root
        else attach (node p content leaf leaf) place.way place.where_ content)

-- If the loop stops at once, the place of the last round is the parent.
abbrev Ready : Ptr → Place → List Step → ℤ → Tree → Type 0
Ready p last way content leaf =
    finish p (plug way leaf) last content ≡ plug way (insert_spec p leaf content)
Ready p last way content (node q cont l r) = Unit

module _ (p : Ptr) (way : List Step) (q : Ptr) (cont : ℤ) (content : ℤ) where
  Ready-left :
      (l r : Tree)
      → ltb_ℤ content cont ≡ true
      → Ready p
          (record { found = false; way = way; where_ = node q cont l r })
          (to_left q cont r ∷ way)
          content
          l
  unfolding attach
  Ready-left leaf r h = ground (arith, h)
  Ready-left (node q' c l' r') r h = tt

  Ready-right :
      (l r : Tree)
      → ltb_ℤ cont content ≡ true
      → Ready p
          (record { found = false; way = way; where_ = node q cont l r })
          (to_right q cont l ∷ way)
          content
          r
  unfolding attach
  Ready-right l leaf h = ground (arith, h)
  Ready-right l (node q' c l' r') h = tt

insert_loop-finish :
    (p : Ptr) (content : ℤ) (t : Tree) (last : Place) (way : List Step)
    → Ready p last way content t
    → finish p (plug way t) (insert_loop last way t content) content
      ≡ plug way (insert_spec p t content)
unfolding insert_loop
insert_loop-finish p content leaf last way ready = ready
insert_loop-finish p content (node q cont l r) last way ready =
    let here : Place = record { found = false; way = way; where_ = node q cont l r } in
    elim (Bool-cases (ltb_ℤ content cont)) [
      | inl less ↦ simp less (
          insert_loop-finish p content l here (to_left q cont r ∷ way)
            (Ready-left p way q cont content l r less))
      | inr not_less ↦ elim (Bool-cases (ltb_ℤ cont content)) [
        | inl more ↦
            simp (not_less, more)
              (insert_loop-finish p content r here (to_right q cont l ∷ way)
                (Ready-right p way q cont content l r more))
        | inr same ↦ simp (not_less, same) refl
      ]
    ]

-- `BTInsert`, with its loop and its pointer to the last node, is insertion by recursion, whatever the tree
-- and whether `malloc` succeeds or not.
pub bt_insert-insert_spec :
    (p : Ptr) (t : Tree) (content : ℤ) → bt_insert p t content ≡ insert_spec p t content
unfolding bt_insert insert_loop attach
bt_insert-insert_spec p leaf content = ground arith
bt_insert-insert_spec p (node q cont l r) content =
    insert_loop-finish p content (node q cont l r)
      (record { found = false; way = []; where_ = leaf }) [] tt
