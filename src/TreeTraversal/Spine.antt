-- ===== src/TreeTraversal/Spine.antt =====
-- What the traversals put on the stack, and how much of it there is room for.
use school_projects.Base.{
  ap, ◌∙◌, append_assoc, ℕ, suc, ◌+◌, ◌≤◌, ◌≡◌, ◌++◌, List, [], ◌∷◌, arith, length, max,
}
use school_projects.TreeTraversal.{Tree, leaf, node, Event}

abbrev pub height : Tree → ℕ
height leaf = 0
height (node p cont l r) = suc (max (height l) (height r))

abbrev pub size : Tree → ℕ
size leaf = 0
size (node p cont l r) = suc (size l + size r)

-- A tree and its left subtrees, pushed on a stack.
abbrev pub spine : Tree → List Tree → List Tree
spine leaf ts = ts
spine (node p cont l r) ts = spine l (node p cont l r ∷ ts)

-- The trees on a stack are not empty, and leave room for the spines of their subtrees in the 29
-- places that are used.
abbrev pub Fits : List Tree → Type 0
Fits [] = Unit
Fits (leaf ∷ ts) = ⊥
Fits (node p cont l r ∷ ts) = (length ts + height (node p cont l r) ≤ 29) × Fits ts

pub spine-Fits :
    (t : Tree) (ts : List Tree) → length ts + height t ≤ 29 → Fits ts → Fits (spine t ts)
spine-Fits leaf ts h fits = fits
spine-Fits (node p cont l r) ts h fits =
    spine-Fits l (node p cont l r ∷ ts) (ground arith) (h, fits)

-- The rounds of the loop that empties a stack.
abbrev pub rounds : List Tree → ℕ
rounds [] = 0
rounds (leaf ∷ ts) = rounds ts
rounds (node p cont l r ∷ ts) = suc (size r + rounds ts)

pub rounds-spine : (t : Tree) (ts : List Tree) → rounds (spine t ts) ≡ size t + rounds ts
rounds-spine leaf ts = omega arith
rounds-spine (node p cont l r) ts = omega (arith, rounds-spine l (node p cont l r ∷ ts))

-- What happens in two parts of a run.
pub then_events :
    (es now later : List Event) {es1 es2 : List Event}
    → es1 ≡ es ++ now
    → es2 ≡ es1 ++ later
    → es2 ≡ es ++ (now ++ later)
then_events es now later first second =
    second ∙ ap (λ t. t ++ later) first ∙ append_assoc es now later
