-- ===== src/Allocator/Free.antt =====
-- What `mfree` does with a block.
use school_projects.Base.{
  ℕ, ◌+◌, ◌<◌, ◌≡◌, ◌≢◌, refl, sym, arith, ◌==◌, true, false, List, ◌∷◌, length, Bool-cases, inl,
  inr, some,
}
use school_projects.Memory.{Ptr, null, write, done, undefined}
use school_projects.Allocator.{Header, Arenas, sizeof_header, word}
use school_projects.Allocator.Blocks.{hdr_can_merge, hdr_merge}
use school_projects.Allocator.Program.{mfree, merge_before, header_of}
use school_projects.Allocator.Ring.{Block, Chain, Chain-agree, bytes}
use school_projects.Allocator.Before.{Distinct, Around, join, released, merged_before}

-- If a block is the only one of the ring, `mfree` of its memory fails the assertion that two different
-- blocks are merged.
pub mfree_alone :
    (fuel : ℕ) (ptr : Ptr) (s : Arenas) (b : Header)
    → ptr ≢ null
    → s.headers (header_of ptr) ≡ some b
    → b.next ≡ header_of ptr
    → mfree fuel ptr s ≡ undefined
unfolding mfree hdr_can_merge
mfree_alone fuel ptr s b ne at e = ground (arith, at, e)

module _ (fuel : ℕ) (s : Arenas) (x y : Block) (zs : List Block) (some_arena : s.first_arena ≢ null)
    (ring : Around s (x ∷ y ∷ zs)) (distinct : Distinct (x ∷ y ∷ zs))
    (small : bytes (x ∷ y ∷ zs) < word) (space : x.address + sizeof_header < word) where
  abbrev freed : Block
  freed = record x { asize = 0 }

  abbrev ptr : Ptr
  ptr = x.address + sizeof_header

  header_of_ptr : header_of ptr ≡ x.address
  header_of_ptr = omega arith

  abbrev marked : Ptr → Arenas
  marked n = record s {
    headers = write s.headers x.address (some (record { next = n; size = x.size; asize = 0 }));
  }

  mfree_used :
      (s' : Arenas)
      → (y.asize == 0) ≡ false
      → merge_before fuel x.address (marked y.address) ≡ done tt s'
      → mfree fuel ptr s ≡ done tt s'
  unfolding mfree hdr_can_merge
  mfree_used s' used e =
      let (e1, (n, at, (e2, (m, at', k)))) = ring in
      ground (arith, header_of_ptr, at, at', e2, distinct.0, used, e)

  abbrev swallowed : Ptr → Arenas
  swallowed m = record s {
    headers =
        write (marked y.address).headers x.address
          (some (record { next = m; size = x.size + sizeof_header + y.size; asize = 0 }));
  }

  mfree_free :
      (s' : Arenas) (m : Ptr)
      → s.headers y.address ≡ some (record { next = m; size = y.size; asize = y.asize })
      → (y.asize == 0) ≡ true
      → merge_before fuel x.address (swallowed m) ≡ done tt s'
      → mfree fuel ptr s ≡ done tt s'
  unfolding mfree hdr_can_merge hdr_merge
  mfree_free s' m at' unused e =
      let (e1, (n, at, (e2, k))) = ring in
      ground (arith, header_of_ptr, at, at', e2, distinct.0, unused, e, small)

  marked-Around : Around (marked y.address) (freed ∷ y ∷ zs)
  marked-Around =
      let (e1, (n, at, k)) = ring in
      let v = distinct.0 in
      (
        refl,
        (
          y.address,
          ground arith,
          Chain-agree s.headers (marked y.address).headers x.address x.address y.address (y ∷ zs)
              x.address (λ p ne ne'. ground arith) v v (rw (sym k.0) at k),
        ),
      )

  swallowed-Around :
      (m : Ptr) → Chain s.headers m zs x.address → Around (swallowed m) (join freed y ∷ zs)
  swallowed-Around m k =
      let v = distinct.0.1 in
      (
        refl,
        (
          m,
          ground arith,
          Chain-agree s.headers (swallowed m).headers x.address x.address m zs x.address
              (λ p ne ne'. ground arith) v v k,
        ),
      )

  -- On a ring of several blocks at different addresses, whose bytes fit into a word, and with fuel for
  -- each block, `mfree` of the memory of a block leaves a ring in which the block is free, has taken
  -- in the next one if that is free, and has been taken in by the one before if that is free and has a
  -- lower address; all other blocks are as they were. As in the
  -- code, a merge adds the sizes and the size of a header, and neither asks that the two blocks touch in
  -- memory nor that they lie in the same arena, although the comment above `hdr_can_merge` does.
  pub mfree_merges :
      length zs + 1 < fuel
      → (s' : Arenas) × (mfree fuel ptr s ≡ done tt s') × Around s' (released freed y zs)
  mfree_merges enough = elim (Bool-cases (y.asize == 0)) [
    | inr used ↦
        let (s', e, k) =
          merged_before fuel (marked y.address) freed (y ∷ zs) some_arena (omega arith) distinct
            marked-Around refl small in
        (s', mfree_used s' used e, rw used k)
    | inl unused ↦
        let (e1, (n, at, (e2, (m, at', c)))) = ring in
        let at_y : s.headers y.address
            ≡ some (record { next = m; size = y.size; asize = y.asize }) =
          ground (arith, at', e2) in
        let (s', e, k) =
          merged_before fuel (swallowed m) (join freed y) zs some_arena (omega arith)
            (distinct.0.1, distinct.1.1) (swallowed-Around m c) refl (omega (arith, small)) in
        (s', mfree_free s' m at_y unused e, rw unused k)
  ]
