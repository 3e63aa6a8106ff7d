-- ===== src/Allocator/Tests.antt =====
-- An arena with a block in use, which has room left, and a free block.
use school_projects.Base.{
  ℕ, ◌≡◌, ◌≢◌, inl, refl, arith, ◌==◌, Option, none, some, [], ◌∷◌, ◌++◌, if◌then◌else◌,
}
use school_projects.Memory.{Ptr, Outcome, done, ◌>>=◌}
use school_projects.Allocator.{Arenas, page_size}
use school_projects.Allocator.Blocks.{
  hdr_split, hdr_merge, allign_page, hdr_ctor, place, hdr_should_split,
}
use school_projects.Allocator.Program.{
  mrealloc, mmalloc, mfree, fit_loop, arena_alloc, arena_append, append_loop,
}
use school_projects.Allocator.Ring.{Block}
use school_projects.Allocator.Taken.{IsRing}
use school_projects.Allocator.Fit.{mmalloc_takes}
use school_projects.Allocator.Merge.{placed, split-merge}
use school_projects.Allocator.Before.{Around, released}
use school_projects.Allocator.Free.{mfree_merges}
use school_projects.Allocator.Resize.{unused, mrealloc_shrinks}

abbrev mmap : Arenas → ℕ → Ptr
mmap s n = 1000000

abbrev used_block : Block
used_block = record { address = 4112; size = 140; asize = 100 }

abbrev free_block : Block
free_block = record { address = 4276; size = 2000; asize = 0 }

abbrev two_blocks : Arenas
two_blocks = record {
  headers = λ p.
      if p == 4112
      then some (record { next = 4276; size = 140; asize = 100 })
      else (if p == 4276 then some (record { next = 4112; size = 2000; asize = 0 }) else none);
  arenas = λ p. if p == 4096 then some (record { next = 0; size = page_size }) else none;
  first_arena = 4096;
}

two_blocks-IsRing : IsRing two_blocks (used_block ∷ free_block ∷ [])
two_blocks-IsRing = record {
  arena = omega arith;
  chain = (refl, (4276, refl, (refl, (4112, refl, refl))));
  apart = ((inl (omega arith), tt), (tt, tt));
  sound = omega arith;
}

mmalloc_takes_example :
    (s' : Arenas) × (mmalloc mmap 2 200 two_blocks ≡ done 4300 s')
    × IsRing s' (used_block ∷ (placed free_block 200 ++ []))
mmalloc_takes_example =
    mmalloc_takes mmap two_blocks 200 (used_block ∷ []) [] free_block 2 two_blocks-IsRing
      (omega arith) (omega arith) (omega arith) refl (omega arith)

split-merge_example :
    (s' : Arenas) × ((hdr_split 4276 100 >>= λ r. hdr_merge 4276 r) two_blocks ≡ done tt s')
    × ((p : Ptr) → p ≢ 4400 → s'.headers p ≡ two_blocks.headers p)
    × (s'.arenas ≡ two_blocks.arenas)
    × (s'.first_arena ≡ two_blocks.first_arena)
split-merge_example =
    split-merge two_blocks 4276 (record { next = 4112; size = 2000; asize = 0 }) 100 refl
      (omega arith) (omega arith)

address_of : Outcome Arenas Ptr → Option Ptr
address_of (done p s) = some p
address_of _ = none

-- The first block of a program, in a new arena at 1000000.
first_request :
    address_of
      (mmalloc mmap 3 100 (record { headers = λ p. none; arenas = λ p. none; first_arena = 0 }))
    ≡ some 1000040
unfolding address_of mmalloc arena_alloc arena_append append_loop fit_loop place hdr_should_split
    hdr_split hdr_ctor allign_page
first_request = refl

abbrev three_blocks : Arenas
three_blocks = record {
  headers = λ p.
      if p == 4112
      then some (record { next = 4276; size = 140; asize = 0 })
      else (if p == 4276
          then some (record { next = 4400; size = 100; asize = 60 })
          else (if p == 4400 then some (record { next = 4112; size = 1000; asize = 0 }) else none));
  arenas = λ p. if p == 4096 then some (record { next = 0; size = page_size }) else none;
  first_arena = 4096;
}

abbrev middle : Block
middle = record { address = 4276; size = 100; asize = 60 }

abbrev upper : Block
upper = record { address = 4400; size = 1000; asize = 0 }

abbrev lower : Block
lower = record { address = 4112; size = 140; asize = 0 }

mfree_merges_example :
    (s' : Arenas) × (mfree 3 4300 three_blocks ≡ done tt s')
    × Around s' (released (record { address = 4276; size = 100; asize = 0 }) upper (lower ∷ []))
mfree_merges_example =
    mfree_merges 3 three_blocks middle upper (lower ∷ []) (omega arith)
      (refl, (4400, refl, (refl, (4112, refl, (refl, (4276, refl, refl)))))) (omega arith)
      (omega arith) (omega arith) (omega arith)

released_test :
    released (record { address = 4276; size = 100; asize = 0 }) upper (lower ∷ [])
    ≡ record { address = 4112; size = 1288; asize = 0 } ∷ []
released_test = refl

mrealloc_shrinks_example :
    (s' : Arenas) × (mrealloc mmap 1 4136 40 two_blocks ≡ done 4136 s')
    × IsRing s' (
        placed (unused two_blocks 40 [] (free_block ∷ []) used_block two_blocks-IsRing) 40
        ++ (free_block ∷ []))
mrealloc_shrinks_example =
    mrealloc_shrinks two_blocks 40 [] (free_block ∷ []) used_block two_blocks-IsRing mmap 1
      (omega arith) (omega arith) (omega arith) (omega arith)
