-- ===== src/Allocator/Fit.antt =====
-- First fit on a ring, and what `mmalloc` returns.
use school_projects.Base.{
  ℕ, zero, suc, ◌+◌, ◌≤◌, ◌<◌, ◌≡◌, ◌≢◌, arith, ◌==◌, true, false, List, [], ◌∷◌, ◌++◌, length, ltb,
}
use school_projects.Memory.{Ptr, Heap, done, undefined}
use school_projects.Allocator.{Header, Arenas, sizeof_header, sub_size, first_block}
use school_projects.Allocator.Blocks.{place, hdr_should_split}
use school_projects.Allocator.Program.{fit_loop, first_fit, mmalloc}
use school_projects.Allocator.Ring.{Block, Chain, Avoids, Chain-head}
use school_projects.Allocator.Layout.{Sound, AllSound, AllSound-right, Disjoint, Avoids-right}
use school_projects.Allocator.Merge.{placed}
use school_projects.Allocator.Taken.{IsRing, header_lem, place-IsRing}

-- What `first_fit` asks of a block.
abbrev pub Fits : ℕ → Block → Type 0
Fits size x = size + x.asize < x.size

-- Blocks that do not fit.
abbrev pub Full : ℕ → List Block → Type 0
Full size [] = Unit
Full size (x ∷ xs) = (x.size ≤ size + x.asize) × Full size xs

-- The blocks after the first one are elsewhere.
abbrev Elsewhere : Ptr → List Block → Type 0
Elsewhere a [] = Unit
Elsewhere a (x ∷ xs) = Avoids a xs

Elsewhere-of_Avoids : (a : Ptr) (xs : List Block) → Avoids a xs → Elsewhere a xs
Elsewhere-of_Avoids a [] v = tt
Elsewhere-of_Avoids a (x ∷ xs) v = v.1

test-Fits :
    (size : ℕ) (x : Block) → Sound x → Fits size x → ltb size (sub_size x.size x.asize) ≡ true
test-Fits size x h f = ground arith

test-Full :
    (size : ℕ) (x : Block)
    → Sound x
    → x.size ≤ size + x.asize
    → ltb size (sub_size x.size x.asize) ≡ false
test-Full size x h f = ground arith

module _ (mmap : Arenas → ℕ → Ptr) (s : Arenas) (a : Ptr) (size : ℕ) where
  fit_loop_lem :
      (fuel : ℕ) (p : Ptr) (xs : List Block) (x : Block) (ys : List Block) (z : Ptr)
      → length xs < fuel
      → Full size xs
      → AllSound (xs ++ x ∷ ys)
      → Fits size x
      → Elsewhere a (xs ++ x ∷ ys)
      → Chain s.headers p (xs ++ x ∷ ys) z
      → fit_loop mmap fuel size a p s ≡ done x.address s
  unfolding fit_loop
  fit_loop_lem zero p xs x ys z l full h f v k = absurd (omega arith)
  fit_loop_lem (suc fuel) p [] x ys z l full h f v (e, (n, at, k)) =
      ground (arith, at, test-Fits size x h.0 f, e)
  fit_loop_lem (suc fuel) p (y ∷ xs) x ys z l (small, full) (sound, h) f v (e, (n, at, k)) =
      let ne : n ≢ a = Chain-head s.headers n z a xs ys x k v in
      let other : (n == a) ≡ false = ground arith in
      ground (
        arith,
        at,
        test-Full size y sound small,
        other,
        fit_loop_lem fuel n xs x ys z (omega arith) full h f
            (Elsewhere-of_Avoids a (xs ++ x ∷ ys) v) k,
      )

Elsewhere-of_Disjoint :
    (h : Heap Header) (a z : Ptr) (bs : List Block) → Disjoint bs → Chain h a bs z → Elsewhere a bs
Elsewhere-of_Disjoint h a z [] d k = tt
Elsewhere-of_Disjoint h a z (x ∷ xs) d k =
    Avoids-right x a (omega (arith, k.0)) (omega (arith, k.0)) [] xs d

module _ (mmap : Arenas → ℕ → Ptr) (s : Arenas) (size : ℕ) (xs ys : List Block) (x : Block)
    (fuel : ℕ) where
  module _ (ring : IsRing s (xs ++ x ∷ ys)) (full : Full size xs) (fits : Fits size x)
      (enough : length xs < fuel) where
    first_fit_lem : first_fit mmap fuel size s ≡ done x.address s
    unfolding first_fit
    first_fit_lem =
        fit_loop_lem mmap s (first_block s.first_arena) size fuel (first_block s.first_arena) xs x
          ys (first_block s.first_arena) enough full ring.sound fits
          (Elsewhere-of_Disjoint s.headers _ _ (xs ++ x ∷ ys) ring.apart ring.chain) ring.chain

    -- On a ring of blocks that do not overlap, and with more fuel than blocks before it, if the
    -- first block that `first_fit` accepts is in use, `mmalloc` fails an assertion.
    mmalloc_busy : x.asize ≢ 0 → mmalloc mmap fuel size s ≡ undefined
    unfolding mmalloc place hdr_should_split
    mmalloc_busy busy =
        let (n, at, k) = header_lem s size xs ys x ring in
        ground (arith, ring.arena, first_fit_lem, at, (AllSound-right xs (x ∷ ys) ring.sound).0)

    module _ (free : x.asize ≡ 0) (some_bytes : 0 < size) where
      mmalloc_result :
          (s' : Arenas)
          → place x.address size s ≡ done tt s'
          → mmalloc mmap fuel size s ≡ done (x.address + sizeof_header) s'
      unfolding mmalloc
      mmalloc_result s' result =
          ground
            (arith, ring.arena, first_fit_lem, result, (AllSound-right xs (x ∷ ys) ring.sound).0)

      -- On a ring of blocks that do not overlap, and with more fuel than blocks before it,
      -- `mmalloc` of a positive size returns the memory of the first block that `first_fit`
      -- accepts, if that is free; the new ring has this block, in use with the size asked for and
      -- cut after it where there is room, and all others as they were.
      pub mmalloc_takes :
          (s' : Arenas) × (mmalloc mmap fuel size s ≡ done (x.address + sizeof_header) s')
          × IsRing s' (xs ++ (placed x size ++ ys))
      mmalloc_takes =
          let (s', result, ring') =
            place-IsRing s size xs ys x ring (omega (arith, fits)) free some_bytes in
          (s', mmalloc_result s' result, ring')
