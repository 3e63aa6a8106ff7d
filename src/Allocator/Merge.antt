-- ===== src/Allocator/Merge.antt =====
-- Splitting a block and merging two.
use school_projects.Base.{
  ℕ, ◌+◌, ◌-◌, ◌*◌, ◌≤◌, ◌<◌, ◌≡◌, ◌≢◌, refl, arith, if◌then◌else◌, Option, some, List, [], ◌∷◌,
  ltb, Bool-cases, inl, inr, true, false,
}
use school_projects.Memory.{Ptr, Heap, write, done, ◌>>=◌}
use school_projects.Allocator.{Header, Arenas, sizeof_header, word}
use school_projects.Allocator.Blocks.{hdr_split, hdr_merge, hdr_should_split, place}
use school_projects.Allocator.Ring.{Block, Chain}

-- The block at `hdr` as `b` has it, cut after `req_size` bytes.
abbrev pub left_part : (hdr : Ptr) (b : Header) (req_size : ℕ) → Header
left_part hdr b req_size = record b { next = hdr + sizeof_header + req_size; size = req_size }

abbrev pub right_part : (b : Header) (req_size : ℕ) → Header
right_part b req_size = record {
  next = b.next;
  size = b.size - req_size - sizeof_header;
  asize = 0;
}

module _ (s : Arenas) (hdr : Ptr) (b : Header) (req_size : ℕ) where
  abbrev pub right : Ptr
  right = hdr + sizeof_header + req_size

  pub split_headers : Heap Header
  split_headers =
      write
        (write (write s.headers hdr (some (record b { next = right }))) right
          (some (right_part b req_size)))
        hdr (some (left_part hdr b req_size))

  pub split_headers-left : split_headers hdr ≡ some (left_part hdr b req_size)
  unfolding split_headers
  split_headers-left = ground arith

  pub split_headers-right : split_headers right ≡ some (right_part b req_size)
  unfolding split_headers
  split_headers-right = ground arith

  pub split_headers-others : (p : Ptr) → p ≢ hdr → p ≢ right → split_headers p ≡ s.headers p
  unfolding split_headers
  split_headers-others p ne ne' = ground arith

  back : Ptr → Option Header
  back = write split_headers hdr (some b)

  module _ (at : s.headers hdr ≡ some b) (room : req_size + 2 * sizeof_header ≤ b.size)
      (small : b.size < word) where
    pub hdr_split_lem : hdr_split hdr req_size s ≡ done right (record s { headers = split_headers })
    unfolding hdr_split split_headers
    hdr_split_lem = ground (arith, at)

    merge_back :
        hdr_merge hdr right (record s { headers = split_headers })
        ≡ done tt (record s { headers = write split_headers hdr (some b) })
    unfolding hdr_merge
    merge_back = ground (arith, split_headers-left, split_headers-right, room, small)

    back-others : (p : Ptr) → p ≢ right → back p ≡ s.headers p
    unfolding back
    back-others p ne = ground (arith, split_headers-others p, at)

    -- Where a block has room for the request and two headers, `hdr_merge` undoes `hdr_split`: every
    -- header but the one that the split wrote is as before, and so are the arenas.
    pub split-merge :
        (s' : Arenas) × ((hdr_split hdr req_size >>= λ r. hdr_merge hdr r) s ≡ done tt s')
        × ((p : Ptr) → p ≢ right → s'.headers p ≡ s.headers p)
        × (s'.arenas ≡ s.arenas)
        × (s'.first_arena ≡ s.first_arena)
    unfolding back
    split-merge =
        (record s { headers = back }, rw hdr_split_lem merge_back, back-others, refl, refl)

-- What `place` makes of the block `x`.
abbrev pub placed : Block → ℕ → List Block
placed x size =
    if ltb (size + 2 * sizeof_header) x.size
    then record { address = x.address; size = size; asize = size }
      ∷ record {
        address = x.address + sizeof_header + size;
        size = x.size - size - sizeof_header;
        asize = 0;
      }
      ∷ []
    else record x { asize = size } ∷ []

module _ (s : Arenas) (x : Block) (n : Ptr) (size : ℕ)
    (at : s.headers x.address ≡ some (record { next = n; size = x.size; asize = 0 }))
    (some_bytes : 0 < size) (fits : size < x.size) (small : x.size + 2 * sizeof_header < word) where
  pub record Placed (s' : Arenas) : Type 0 where
    pub result : place x.address size s ≡ done tt s'
    pub others :
        (p : Ptr)
        → p ≢ x.address
        → p ≢ x.address + sizeof_header + size
        → s'.headers p ≡ s.headers p
    pub chain : Chain s'.headers x.address (placed x size) n
    pub arenas : s'.arenas ≡ s.arenas
    pub first_arena : s'.first_arena ≡ s.first_arena

  should_split : hdr_should_split x.address size s ≡ done (ltb (size + 2 * sizeof_header) x.size) s
  unfolding hdr_should_split
  should_split = ground (arith, at)

  module _ (whole : ltb (size + 2 * sizeof_header) x.size ≡ false) where
    filled : Arenas
    filled = record s {
      headers = write s.headers x.address (some (record { next = n; size = x.size; asize = size }));
    }

    place_whole : place x.address size s ≡ done tt filled
    unfolding place filled
    place_whole = ground (arith, should_split, whole, at)

    whole-Placed : Placed filled
    unfolding filled
    whole-Placed = record {
      result = place_whole;
      others = λ p ne ne'. ground arith;
      chain = rw whole (refl, (n, ground arith, refl));
      arenas = refl;
      first_arena = refl;
    }

  module _ (split : ltb (size + 2 * sizeof_header) x.size ≡ true) where
    abbrev b : Header
    b = record { next = n; size = x.size; asize = 0 }

    taken : Arenas
    taken = record s {
      headers =
          write (split_headers s x.address b size) x.address
            (some (record { next = x.address + sizeof_header + size; size = size; asize = size }));
    }

    place_split : place x.address size s ≡ done tt taken
    unfolding place taken
    place_split = ground (
      arith,
      should_split,
      split,
      hdr_split_lem s x.address b size,
      split_headers-left s x.address b size,
    )

    split-Placed : Placed taken
    unfolding taken
    split-Placed = record {
      result = place_split;
      others = λ p ne ne'. ground (arith, split_headers-others s x.address b size p);
      chain = rw split (
        refl,
        (
          x.address + sizeof_header + size,
          ground arith,
          (refl, (n, ground (arith, split_headers-right s x.address b size), refl)),
        ),
      );
      arenas = refl;
      first_arena = refl;
    }

  pub place_lem : (s' : Arenas) × Placed s'
  place_lem = elim (Bool-cases (ltb (size + 2 * sizeof_header) x.size)) [
    | inl split ↦ (taken split, split-Placed split)
    | inr whole ↦ (filled whole, whole-Placed whole)
  ]
