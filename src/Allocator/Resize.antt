-- ===== src/Allocator/Resize.antt =====
-- What `mrealloc` does where the block is large enough.
use school_projects.Base.{ℕ, ◌+◌, ◌≤◌, ◌<◌, ◌≡◌, refl, arith, List, [], ◌∷◌, ◌++◌, ==_refl, some}
use school_projects.Memory.{Ptr, write, done}
use school_projects.Allocator.{Arenas, sizeof_header, word, first_block}
use school_projects.Allocator.Blocks.{place}
use school_projects.Allocator.Program.{mrealloc, header_of}
use school_projects.Allocator.Ring.{Avoids, Block, Chain, Chain-agree, Chain-append, Chain-split}
use school_projects.Allocator.Layout.{
  AllSound-left, AllSound-right, AllSound-append, Disjoint-replace, Avoids-left, Avoids-right,
}
use school_projects.Allocator.Merge.{placed}
use school_projects.Allocator.Taken.{IsRing, header_lem, place-IsRing}

module _ (s : Arenas) (size : ℕ) (xs ys : List Block) (x : Block)
    (ring : IsRing s (xs ++ x ∷ ys)) where
  abbrev pub unused : Block
  unused = record x { asize = 0 }

  -- `head->asize = 0`
  abbrev marked : (n : Ptr) → Arenas
  marked n = record s {
    headers = write s.headers x.address (some (record { next = n; size = x.size; asize = 0 }));
  }

  marked-IsRing :
      (n : Ptr)
      → Chain s.headers n ys (first_block s.first_arena)
      → IsRing (marked n) (xs ++ unused ∷ ys)
  marked-IsRing n k =
      let a = first_block s.first_arena in
      let (m, left, (e, right)) = Chain-split s.headers a xs (x ∷ ys) a ring.chain in
      let p = x.address in
      let sound = AllSound-right xs (x ∷ ys) ring.sound in
      let before = Avoids-left x p (omega arith) (omega arith) xs ys ring.apart in
      let after = Avoids-right x p (omega arith) (omega arith) xs ys ring.apart in
      let agree : (b : Ptr) (bs : List Block) (z : Ptr)
          → Avoids p bs
          → Chain s.headers b bs z
          → Chain (marked n).headers b bs z =
        λ b bs z v c.
          Chain-agree s.headers (marked n).headers p p b bs z (λ r ne ne'. ground arith) v v c in
      record {
        arena = ring.arena;
        chain =
            Chain-append (marked n).headers a xs (unused ∷ ys) m a (agree a xs m before left)
              (e, (n, rw e (rw (==_refl m) refl), agree n ys a after k));
        apart =
            Disjoint-replace x xs (unused ∷ []) ys (omega arith, omega arith, tt) (tt, tt)
              ring.apart;
        sound =
            AllSound-append xs (unused ∷ ys) (AllSound-left xs (x ∷ ys) ring.sound)
              ((sound.0.0, omega arith, sound.0.2), sound.1);
      }

  mrealloc_result :
      (mmap : Arenas → ℕ → Ptr) (fuel : ℕ) (n : Ptr) (s' : Arenas)
      → 0 < size
      → size ≤ x.asize
      → x.address + sizeof_header < word
      → s.headers x.address ≡ some (record { next = n; size = x.size; asize = x.asize })
      → place x.address size (marked n) ≡ done tt s'
      → mrealloc mmap fuel (x.address + sizeof_header) size s ≡ done (x.address + sizeof_header) s'
  unfolding mrealloc
  mrealloc_result mmap fuel n s' positive smaller space at result =
      let header : header_of (x.address + sizeof_header) ≡ x.address = omega (arith, space) in
      ground (arith, header, at, result)

  -- On a ring of blocks that do not overlap, and for a block in use that is larger than what it was asked for,
  -- `mrealloc` to a positive size that is not larger than that returns the same memory; the new ring has this
  -- block, in use with the new size and cut after it where there is room, and all others as they were.
  pub mrealloc_shrinks :
      (mmap : Arenas → ℕ → Ptr) (fuel : ℕ)
      → 0 < size
      → size ≤ x.asize
      → x.asize < x.size
      → x.address + sizeof_header < word
      → (s' : Arenas) × (mrealloc mmap fuel (x.address + sizeof_header) size s
          ≡ done (x.address + sizeof_header) s')
        × IsRing s' (xs ++ (placed unused size ++ ys))
  mrealloc_shrinks mmap fuel positive smaller larger space =
      let (n, at, k) = header_lem s size xs ys x ring in
      let (s', result, ring') =
        place-IsRing (marked n) size xs ys unused (marked-IsRing n k)
          (omega (arith, smaller, larger)) refl positive in
      (s', mrealloc_result mmap fuel n s' positive smaller space at result, ring')
