-- ===== src/HashTable/Clear.antt =====
-- `htInit` and `htClearAll`.
use school_projects.Base.{
  ℕ, zero, suc, ◌+◌, ◌≡◌, refl, ap, sym, ◌∙◌, true, some, List, [], ◌∷◌, ◌++◌, append_assoc,
  append-nil, arith, get_elem?, set, length,
}
use school_projects.Base.Int.{pos}
use school_projects.Memory.{Ptr, done}
use school_projects.HashTable.{
  Item, HashWorld, read_slot, write_slot, init_loop, clear_loop, ht_init, ht_clear_all,
}

module _ {D : Type 0} where
  abbrev pub empty_slots : ℕ → List (List (Item D))
  empty_slots zero = []
  empty_slots (suc k) = [] ∷ empty_slots k

  -- The blocks of all items: the key and the item itself, in the order of the chains.
  abbrev pub blocks_of : List (Item D) → List Ptr
  blocks_of [] = []
  blocks_of (item ∷ chain) = item.key_address ∷ item.address ∷ blocks_of chain

  abbrev pub blocks : List (List (Item D)) → List Ptr
  blocks [] = []
  blocks (chain ∷ slots) = blocks_of chain ++ blocks slots

  clear_chain-blocks_of : (chain : List (Item D)) → blocks_of chain ≡ blocks_of chain
  clear_chain-blocks_of [] = refl
  clear_chain-blocks_of (item ∷ chain) =
      ap (λ ps. item.key_address ∷ item.address ∷ ps) (clear_chain-blocks_of chain)

  get_elem?-empty_slots :
      (i : ℕ) (c : List (Item D)) (cs : List (List (Item D)))
      → get_elem? (empty_slots i ++ c ∷ cs) i ≡ some c
  get_elem?-empty_slots zero c cs = refl
  get_elem?-empty_slots (suc i) c cs = get_elem?-empty_slots i c cs

  set-empty_slots :
      (i : ℕ) (c : List (Item D)) (cs : List (List (Item D)))
      → set (empty_slots i ++ c ∷ cs) i [] ≡ empty_slots (suc i) ++ cs
  set-empty_slots zero c cs = refl
  set-empty_slots (suc i) c cs = ap (λ r. [] ∷ r) (set-empty_slots i c cs)

  -- The slots up to `i` are empty, the others hold `cs`.
  abbrev at_slot : ℕ → List (List (Item D)) → List Ptr → HashWorld D
  at_slot i cs freed = record { slots = empty_slots i ++ cs; freed = freed }

  read_at :
      (i : ℕ) (c : List (Item D)) (cs : List (List (Item D))) (freed : List Ptr)
      → read_slot (pos i) (at_slot i (c ∷ cs) freed) ≡ done c (at_slot i (c ∷ cs) freed)
  unfolding read_slot
  read_at i c cs freed = let there = get_elem?-empty_slots i c cs in ground (arith, there)

  write_at :
      (i : ℕ) (c : List (Item D)) (cs : List (List (Item D))) (freed : List Ptr)
      → write_slot (pos i) [] (at_slot i (c ∷ cs) freed) ≡ done tt (at_slot (suc i) cs freed)
  unfolding write_slot
  write_at i c cs freed =
      let there = get_elem?-empty_slots i c cs in
      let emptied = set-empty_slots i c cs in
      simp (write_slot, there)
        (ap (λ (l : List (List (Item D))). done tt (record { slots = l; freed = freed })) emptied)

  init_loop_lem :
      (i : ℕ) (cs : List (List (Item D))) (freed : List Ptr)
      → init_loop (length cs) i (at_slot i cs freed) ≡ done tt (at_slot (i + length cs) [] freed)
  unfolding init_loop
  init_loop_lem i [] freed = ap (λ n. done tt (at_slot n [] freed)) (omega arith)
  init_loop_lem i (c ∷ cs) freed =
      simp (write_at i c cs freed)
        (init_loop_lem (suc i) cs freed ∙ ap (λ n. done tt (at_slot n [] freed)) (omega arith))

  clear_loop_lem :
      (i : ℕ) (cs : List (List (Item D))) (freed : List Ptr)
      → clear_loop (length cs) i (at_slot i cs freed)
        ≡ done tt (at_slot (i + length cs) [] (freed ++ blocks cs))
  unfolding clear_loop
  clear_loop_lem i [] freed =
      ap (λ n. done tt (at_slot n [] freed)) (omega arith)
      ∙ ap (λ ps. done tt (at_slot (i + 0) [] ps)) (sym (append-nil freed))
  clear_loop_lem i (c ∷ cs) freed = simp (read_at i c cs freed) (
      simp (clear_chain-blocks_of c) (
        simp (write_at i c cs (freed ++ blocks_of c)) (
          clear_loop_lem (suc i) cs (freed ++ blocks_of c)
          ∙ ap (λ n. done tt (at_slot n [] ((freed ++ blocks_of c) ++ blocks cs))) (omega arith)
          ∙ ap (λ ps. done tt (at_slot (i + suc (length cs)) [] ps))
              (append_assoc freed (blocks_of c) (blocks cs)))))

blocks-empty_slots : (D : Type 0) (n : ℕ) → blocks {D = D} (empty_slots {D = D} n ++ []) ≡ []
blocks-empty_slots D zero = refl
blocks-empty_slots D (suc n) = blocks-empty_slots D n

module _ {D : Type 0} where
  -- On a table of HTSIZE slots `htClearAll` frees the two blocks of every item once and nothing else, and leaves
  -- the table as `htInit` leaves it: without items, so that nothing is freed by a second call.
  pub ht_clear_all-ht_init :
      (htsize : ℕ) (w : HashWorld D)
      → length w.slots ≡ htsize
      → (w' : HashWorld D) × (ht_clear_all htsize true w ≡ done tt w')
        × (ht_init htsize true w ≡ done tt (record { slots = w'.slots; freed = w.freed }))
        × (w'.freed ≡ w.freed ++ blocks w.slots)
        × (blocks w'.slots ≡ [])
  unfolding ht_clear_all ht_init
  ht_clear_all-ht_init htsize w size = (
    at_slot {D = D} (0 + length w.slots) [] (w.freed ++ blocks w.slots),
    ap (λ n. clear_loop n 0 w) (sym size) ∙ clear_loop_lem 0 w.slots w.freed,
    ap (λ n. init_loop n 0 w) (sym size) ∙ init_loop_lem 0 w.slots w.freed,
    refl,
    blocks-empty_slots D (0 + length w.slots),
  )
