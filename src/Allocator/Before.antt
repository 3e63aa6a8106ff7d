-- ===== src/Allocator/Before.antt =====
-- The second part of `mfree`: a free block and the one before it.
use school_projects.Base.{
  ℕ, ◌+◌, ◌≤◌, ◌<◌, ◌≡◌, ◌≢◌, refl, sym, ap, ◌∙◌, arith, ◌==◌, true, false, List, [], ◌∷◌, length,
  Bool-cases, inl, inr, some, ltb, if◌then◌else◌, ◌&&◌,
}
use school_projects.Memory.{Ptr, null, Heap, write, done}
use school_projects.Allocator.{Header, Arenas, sizeof_header, word}
use school_projects.Allocator.Blocks.{hdr_can_merge, hdr_merge, hdr_get_prev}
use school_projects.Allocator.Program.{merge_before}
use school_projects.Allocator.Previous.{hdr_get_prev_lem}
use school_projects.Allocator.Ring.{Block, Chain, Avoids, Chain-agree, last_address, bytes}

-- The last of the blocks `w ∷ ws`, and the others.
abbrev pub last_block : Block → List Block → Block
last_block w [] = w
last_block w (u ∷ us) = last_block u us

abbrev pub all_but_last : Block → List Block → List Block
all_but_last w [] = []
all_but_last w (u ∷ us) = w ∷ all_but_last u us

abbrev pub Distinct : List Block → Type 0
Distinct [] = Unit
Distinct (x ∷ xs) = Avoids x.address xs × Distinct xs

-- The blocks of a ring, from any of them on.
abbrev pub Around : Arenas → List Block → Type 0
Around s [] = ⊥
Around s (x ∷ xs) = Chain s.headers x.address (x ∷ xs) x.address

abbrev pub join : Block → Block → Block
join u v = record u { size = u.size + sizeof_header + v.size }

-- The block before a free one takes it in, if it is free and has a lower address.
abbrev pub with_previous : Block → List Block → List Block
with_previous x [] = x ∷ []
with_previous x (w ∷ ws) =
    let l = last_block w ws in
    if ltb l.address x.address && l.asize == 0 then join l x ∷ all_but_last w ws else x ∷ w ∷ ws

-- The ring after the block `x` has been freed, where `y` comes after it: `x` takes in `y`, if that is free,
-- and the block before may take in both.
abbrev pub released : Block → Block → List Block → List Block
released x y zs = if y.asize == 0 then with_previous (join x y) zs else with_previous x (y ∷ zs)

last_Chain :
    (h : Heap Header) (n z : Ptr) (w : Block) (ws : List Block)
    → Chain h n (w ∷ ws) z
    → Chain h n (all_but_last w ws) (last_block w ws).address
      × (h (last_block w ws).address
          ≡ some
              (record { next = z; size = (last_block w ws).size; asize = (last_block w ws).asize }))
last_Chain h n z w [] (e, (m, at, k)) = (sym e, rw e (ground (arith, at, k)))
last_Chain h n z w (u ∷ us) (e, (m, at, k)) =
    let (c, l) = last_Chain h m z u us k in ((e, (m, at, c)), l)

last_address-eq : (w : Block) (ws : List Block) → last_address w ws ≡ (last_block w ws).address
last_address-eq w [] = refl
last_address-eq w (u ∷ us) = last_address-eq u us

Avoids-last_block :
    (p : Ptr) (w : Block) (ws : List Block) → Avoids p (w ∷ ws) → (last_block w ws).address ≢ p
Avoids-last_block p w [] v = v.0
Avoids-last_block p w (u ∷ us) v = Avoids-last_block p u us v.1

Avoids-last :
    (w : Block) (ws : List Block)
    → Distinct (w ∷ ws)
    → Avoids (last_block w ws).address (all_but_last w ws)
Avoids-last w [] d = tt
Avoids-last w (u ∷ us) (v, d) =
    ((λ e. Avoids-last_block w.address u us v (sym e)), Avoids-last u us d)

last-le-bytes :
    (w : Block) (ws : List Block) → (last_block w ws).size + sizeof_header ≤ bytes (w ∷ ws)
last-le-bytes w [] = omega arith
last-le-bytes w (u ∷ us) = omega (arith, last-le-bytes u us)

module _ (fuel : ℕ) (s : Arenas) (x : Block) (some_arena : s.first_arena ≢ null) where
  merge_before_alone : 0 < fuel → Around s (x ∷ []) → merge_before fuel x.address s ≡ done tt s
  unfolding merge_before
  merge_before_alone h k = ground (arith, hdr_get_prev_lem s x.address fuel x [] some_arena h tt k)

  module _ (w : Block) (ws : List Block) (enough : length ws + 1 < fuel)
      (distinct : Distinct (x ∷ w ∷ ws)) (around : Around s (x ∷ w ∷ ws)) where
    abbrev l : Block
    l = last_block w ws

    previous : hdr_get_prev fuel x.address s ≡ done l.address s
    previous =
        hdr_get_prev_lem s x.address fuel x (w ∷ ws) some_arena (omega arith) distinct.0 around
        ∙ ap (λ (p : Ptr). done p s) (last_address-eq w ws)

    merge_before_higher :
        ltb l.address x.address ≡ false → merge_before fuel x.address s ≡ done tt s
    unfolding merge_before
    merge_before_higher h = ground (arith, previous, h)

    module _ (n : Ptr)
        (at : s.headers x.address ≡ some (record { next = n; size = x.size; asize = x.asize }))
        (last_at : s.headers l.address
          ≡ some (record { next = x.address; size = l.size; asize = l.asize }))
        (free : x.asize ≡ 0) where
      abbrev joined : Arenas
      joined = record s {
        headers =
            write s.headers l.address
              (some (record { next = n; size = l.size + sizeof_header + x.size; asize = l.asize }));
      }

      can_merge : hdr_can_merge l.address x.address s ≡ done (l.asize == 0) s
      unfolding hdr_can_merge
      can_merge = ground (arith, at, last_at, free, Avoids-last_block x.address w ws distinct.0)

      merge : bytes (x ∷ w ∷ ws) < word → hdr_merge l.address x.address s ≡ done tt joined
      unfolding hdr_merge
      merge small =
          ground
            (arith, at, last_at, last-le-bytes w ws, Avoids-last_block x.address w ws distinct.0)

      merge_before_used : (l.asize == 0) ≡ false → merge_before fuel x.address s ≡ done tt s
      unfolding merge_before
      merge_before_used h = ground (arith, previous, can_merge, h)

      merge_before_free :
          ltb l.address x.address ≡ true
          → (l.asize == 0) ≡ true
          → bytes (x ∷ w ∷ ws) < word
          → merge_before fuel x.address s ≡ done tt joined
      unfolding merge_before
      merge_before_free lower h small = ground (arith, previous, can_merge, h, lower, merge small)

      joined-Around :
          Chain s.headers n (w ∷ ws) x.address → Around joined (join l x ∷ all_but_last w ws)
      joined-Around k =
          let (c, e) = last_Chain s.headers n x.address w ws k in
          let v = Avoids-last w ws distinct.1 in
          (
            refl,
            (
              n,
              ground arith,
              Chain-agree s.headers joined.headers l.address l.address n (all_but_last w ws)
                  l.address (λ p ne ne'. ground arith) v v c,
            ),
          )

    merge_before_lem :
        x.asize ≡ 0
        → bytes (x ∷ w ∷ ws) < word
        → (s' : Arenas) × (merge_before fuel x.address s ≡ done tt s')
          × Around s' (with_previous x (w ∷ ws))
    merge_before_lem free small =
        let (e, (n, at, k)) = around in
        let (c, last_at) = last_Chain s.headers n x.address w ws k in
        elim (Bool-cases (ltb l.address x.address)) [
          | inr higher ↦ (s, merge_before_higher higher, rw higher around)
          | inl lower ↦ elim (Bool-cases (l.asize == 0)) [
            | inr used ↦ (s, merge_before_used n at last_at free used, rw (lower, used) around)
            | inl unused ↦ (
              joined n at last_at free,
              merge_before_free n at last_at free lower unused small,
              rw (lower, unused) (joined-Around n at last_at free k),
            )
          ]
        ]

-- The second part of `mfree`, on the ring from a free block on.
pub merged_before :
    (fuel : ℕ) (s : Arenas) (x : Block) (ws : List Block)
    → s.first_arena ≢ null
    → length ws < fuel
    → Distinct (x ∷ ws)
    → Around s (x ∷ ws)
    → x.asize ≡ 0
    → bytes (x ∷ ws) < word
    → (s' : Arenas) × (merge_before fuel x.address s ≡ done tt s') × Around s' (with_previous x ws)
merged_before fuel s x [] ne l d k free small =
    (s, merge_before_alone fuel s x ne (omega arith) k, k)
merged_before fuel s x (w ∷ ws) ne l d k free small =
    merge_before_lem fuel s x ne w ws (omega arith) d k free small
