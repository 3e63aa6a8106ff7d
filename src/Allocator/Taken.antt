-- ===== src/Allocator/Taken.antt =====
-- A free block of a ring that is taken, cut where there is room.
use school_projects.Base.{
  ℕ, ◌+◌, ◌*◌, ◌<◌, ◌≡◌, ◌≢◌, subst, arith, List, ◌∷◌, ◌++◌, Bool-cases, inl, inr, some, ltb,
}
use school_projects.Memory.{Ptr, null, done}
use school_projects.Allocator.{Arenas, sizeof_header, first_block}
use school_projects.Allocator.Blocks.{place}
use school_projects.Allocator.Ring.{Block, Chain, Avoids, Chain-agree, Chain-append, Chain-split}
use school_projects.Allocator.Layout.{
  Sound, AllSound, AllSound-left, AllSound-right, AllSound-append, Disjoint, Disjoint-replace,
  Inside, Avoids-left, Avoids-right,
}
use school_projects.Allocator.Merge.{place_lem, placed}

-- The blocks of all arenas, from the first one on.
pub record IsRing (s : Arenas) (blocks : List Block) : Type 0 where
  pub arena : s.first_arena ≢ null
  pub chain : Chain s.headers (first_block s.first_arena) blocks (first_block s.first_arena)
  pub apart : Disjoint blocks
  pub sound : AllSound blocks

placed-Inside : (x : Block) (size : ℕ) → size < x.size → Inside x (placed x size)
placed-Inside x size f = elim (Bool-cases (ltb (size + 2 * sizeof_header) x.size)) [
  | inl split ↦ rw split (ground arith)
  | inr whole ↦ rw whole (ground arith)
]

placed-Disjoint : (x : Block) (size : ℕ) → Disjoint (placed x size)
placed-Disjoint x size = elim (Bool-cases (ltb (size + 2 * sizeof_header) x.size)) [
  | inl split ↦ rw split (ground arith)
  | inr whole ↦ rw whole (ground arith)
]

placed-AllSound : (x : Block) (size : ℕ) → size < x.size → Sound x → AllSound (placed x size)
placed-AllSound x size f h = elim (Bool-cases (ltb (size + 2 * sizeof_header) x.size)) [
  | inl split ↦ rw split (ground arith)
  | inr whole ↦ rw whole (ground arith)
]

module _ (s : Arenas) (size : ℕ) (xs ys : List Block) (x : Block)
    (ring : IsRing s (xs ++ x ∷ ys)) where
  pub header_lem :
      (n : Ptr) × (s.headers x.address ≡ some (record { next = n; size = x.size; asize = x.asize }))
      × Chain s.headers n ys (first_block s.first_arena)
  header_lem =
      let (m, left, right) =
        Chain-split s.headers (first_block s.first_arena) xs (x ∷ ys) (first_block s.first_arena)
          ring.chain in
      let (e, (n, at, k)) = right in (n, rw e at, k)

  module _ (less : size < x.size) where
    module _ (n : Ptr) (s' : Arenas) (k : Chain s.headers n ys (first_block s.first_arena))
        (others : (p : Ptr)
          → p ≢ x.address
          → p ≢ x.address + sizeof_header + size
          → s'.headers p ≡ s.headers p)
        (chain : Chain s'.headers x.address (placed x size) n)
        (first : s'.first_arena ≡ s.first_arena) where
      same_headers :
          (a : Ptr) (bs : List Block) (z : Ptr)
          → Avoids x.address bs
          → Avoids (x.address + sizeof_header + size) bs
          → Chain s.headers a bs z
          → Chain s'.headers a bs z
      same_headers a bs z v w c =
          Chain-agree s.headers s'.headers x.address (x.address + sizeof_header + size) a bs z
            others v w c

      new-Chain :
          Chain s'.headers
            (first_block s.first_arena)
            (xs ++ (placed x size ++ ys))
            (first_block s.first_arena)
      new-Chain =
          let a = first_block s.first_arena in
          let (m, left, (e, right)) = Chain-split s.headers a xs (x ∷ ys) a ring.chain in
          let left' =
            same_headers a xs m
              (Avoids-left x x.address (omega arith) (omega arith) xs ys ring.apart)
              (Avoids-left x (x.address + sizeof_header + size) (omega arith) (omega (arith, less))
                xs ys ring.apart)
              left in
          let right' =
            same_headers n ys a
              (Avoids-right x x.address (omega arith) (omega arith) xs ys ring.apart)
              (Avoids-right x (x.address + sizeof_header + size) (omega arith) (omega (arith, less))
                xs ys ring.apart)
              k in
          Chain-append s'.headers a xs (placed x size ++ ys) m a left' (
            Chain-append s'.headers m (placed x size) ys n a
              (subst (λ (t : Ptr). Chain s'.headers t (placed x size) n) e chain) right')

      new-IsRing : IsRing s' (xs ++ (placed x size ++ ys))
      new-IsRing =
          let sound = AllSound-right xs (x ∷ ys) ring.sound in
          record {
            arena = rw first ring.arena;
            chain = rw first new-Chain;
            apart =
                Disjoint-replace x xs (placed x size) ys
                  (placed-Inside x size (omega (arith, less))) (placed-Disjoint x size) ring.apart;
            sound =
                AllSound-append xs (placed x size ++ ys) (AllSound-left xs (x ∷ ys) ring.sound) (
                  AllSound-append (placed x size) ys
                    (placed-AllSound x size (omega (arith, less)) sound.0) sound.1);
          }

    -- `place` of a free block keeps the ring, with the block cut after it where there is room.
    pub place-IsRing :
        x.asize ≡ 0
        → 0 < size
        → (s' : Arenas) × (place x.address size s ≡ done tt s')
          × IsRing s' (xs ++ (placed x size ++ ys))
    place-IsRing free some_bytes =
        let (n, at, k) = header_lem in
        let (s', p) =
          place_lem s x n size (rw free at at) some_bytes (omega (arith, less))
            (AllSound-right xs (x ∷ ys) ring.sound).0.2 in
        (s', p.result, new-IsRing n s' k p.others p.chain p.first_arena)
