-- ===== src/SearchTree/Order.antt =====
-- The order of the keys, on which `BSTSearch` relies.
use school_projects.Base.{◌≡◌, refl, false, arith}
use school_projects.Base.Int.{ℤ, ◌<ℤ◌}
use school_projects.SearchTree.{Tree, leaf, node, search}

abbrev pub AllBelow : ℤ → Tree → Type 0
AllBelow b leaf = Unit
AllBelow b (node p key cont l r) = (key <ℤ b) × AllBelow b l × AllBelow b r

abbrev pub AllAbove : ℤ → Tree → Type 0
AllAbove b leaf = Unit
AllAbove b (node p key cont l r) = (b <ℤ key) × AllAbove b l × AllAbove b r

abbrev pub IsOrdered : Tree → Type 0
IsOrdered leaf = Unit
IsOrdered (node p key cont l r) = AllBelow key l × AllAbove key r × IsOrdered l × IsOrdered r

pub AllBelow-weaken : (b c : ℤ) (t : Tree) → b <ℤ c → AllBelow b t → AllBelow c t
AllBelow-weaken b c leaf h all = tt
AllBelow-weaken b c (node p key cont l r) h (below, left, right) =
    (omega arith, AllBelow-weaken b c l h left, AllBelow-weaken b c r h right)

pub AllAbove-weaken : (b c : ℤ) (t : Tree) → c <ℤ b → AllAbove b t → AllAbove c t
AllAbove-weaken b c leaf h all = tt
AllAbove-weaken b c (node p key cont l r) h (above, left, right) =
    (omega arith, AllAbove-weaken b c l h left, AllAbove-weaken b c r h right)

-- A key that is not below all of them is not found.
pub search-AllBelow :
    (b : ℤ) (t : Tree) (k x : ℤ) → AllBelow b t → ¬ (k <ℤ b) → search t k x ≡ (false, x)
unfolding search
search-AllBelow b leaf k x all h = refl
search-AllBelow b (node p key cont l r) k x (below, left, right) h =
    ground (arith, search-AllBelow b l k x left h, search-AllBelow b r k x right h)

pub search-AllAbove :
    (b : ℤ) (t : Tree) (k x : ℤ) → AllAbove b t → ¬ (b <ℤ k) → search t k x ≡ (false, x)
unfolding search
search-AllAbove b leaf k x all h = refl
search-AllAbove b (node p key cont l r) k x (above, left, right) h =
    ground (arith, search-AllAbove b l k x left h, search-AllAbove b r k x right h)
