-- ===== src/Allocator/Previous.antt =====
-- The loop of `hdr_get_prev` on a ring.
use school_projects.Base.{
  ℕ, zero, suc, ◌<◌, ◌≡◌, ◌≢◌, arith, ◌==◌, Bool, true, false, List, [], ◌∷◌, length, if◌then◌else◌,
}
use school_projects.Memory.{Ptr, null, done}
use school_projects.Allocator.{Arenas}
use school_projects.Allocator.Blocks.{prev_loop, hdr_get_prev}
use school_projects.Allocator.Ring.{Block, Chain, Avoids, last_address}

module _ (s : Arenas) (a : Ptr) where
  prev_loop_lem :
      (fuel : ℕ) (p : Ptr) (x : Block) (xs : List Block)
      → length xs < fuel
      → Avoids a xs
      → Chain s.headers p (x ∷ xs) a
      → (flag : Bool) → (p ≡ a → flag ≡ false)
      → prev_loop fuel a p flag s ≡ done (last_address x xs) s
  unfolding prev_loop
  prev_loop_lem zero p x xs l v k flag first = absurd (omega arith)
  prev_loop_lem (suc fuel) p x [] l v (e, (n, at, k)) flag first = ground (arith, at, k, e)
  prev_loop_lem (suc fuel) p x (y ∷ ys) l v (e, (n, at, k)) flag first =
      let ne : n ≢ a = ground (arith, v, k) in
      ground (
        arith,
        at,
        ne,
        first,
        prev_loop_lem fuel n y ys (omega arith) v.1 k (if p == a then true else flag)
            (λ z. absurd (ne z)),
      )

  -- On a ring `hdr_get_prev` finds the block whose `next` is the given one, which is that block itself where
  -- it is the only one, within as many rounds as there are blocks.
  pub hdr_get_prev_lem :
      (fuel : ℕ) (x : Block) (xs : List Block)
      → s.first_arena ≢ null
      → length xs < fuel
      → Avoids a xs
      → Chain s.headers a (x ∷ xs) a
      → hdr_get_prev fuel a s ≡ done (last_address x xs) s
  unfolding hdr_get_prev
  hdr_get_prev_lem fuel x xs ne l v k = ground (arith, prev_loop_lem fuel a x xs l v k false)
