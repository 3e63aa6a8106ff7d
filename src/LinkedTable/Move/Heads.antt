-- ===== src/LinkedTable/Move/Heads.antt =====
-- `htab_move` moves the first items of the chains, if they belong into different slots.
use school_projects.Base.{
  ℕ, suc, ◌%◌, ◌<◌, ◌≡◌, ◌≢◌, refl, ap, sym, subst, ◌∙◌, false, Bool-cases, inl, inr, Option, none,
  some, List, [], ◌∷◌, arith, ◌==◌, ==_refl, ==_of_ne, if◌then◌else◌, get_elem?, length, set,
  length-set, get_elem?-set_self, get_elem?-set_ne, get_elem?-of_lt,
}
use native.Mathlib.Nat.{mod-lt}
use school_projects.Memory.{Ptr, null, Heap, Outcome, done, exhausted}
use school_projects.HashTable.{Key}
use school_projects.LinkedTable.{htab_hash_function}
use school_projects.LinkedTable.Move.{ListItem, Slots, Tables, move_chain}
use school_projects.LinkedTable.Move.Placed.{
  key_of, item_of, write-keys, Belongs, moved, move_chain-stuck, move_chain-once, move_chain-null,
}

some_inj : {A : Type 0} {a b : A} → some a ≡ some b → a ≡ b
some_inj e = cc

-- The first items of the chains, each put into its slot; none if a slot is taken.
abbrev pub put_free : Ptr → List Ptr → (i : ℕ) → Option (List Ptr)
put_free p slots i = elim (get_elem? slots i) [
  | none ↦ none
  | some q ↦ if q == null then some (set slots i p) else none
]

abbrev pub after : Option (List Ptr) → (List Ptr → Option (List Ptr)) → Option (List Ptr)
after none f = none
after (some slots) f = f slots

-- The item at an address is the last of its chain.
abbrev pub Ends : Heap ListItem → Ptr → Type 0
Ends h' p = (item : ListItem) × (h' p ≡ some item) × (item.next ≡ null)

abbrev pub with_ptr : Slots → List Ptr → Slots
with_ptr t l = record t { ptr = l }

module _ (h : Heap ListItem) where
  abbrev pub IsLive : Ptr → Type 0
  IsLive p = p ≢ null → (k : Key) × (key_of (h p) ≡ some k)

  -- Every address is NULL or that of an item.
  abbrev pub Live : List Ptr → Type 0
  Live [] = Unit
  Live (p ∷ ps) = IsLive p × Live ps

module _ (newsize : ℕ) (h : Heap ListItem) where
  abbrev pub place_head : Ptr → List Ptr → Option (List Ptr)
  place_head p slots = if p == null then some slots else elim (key_of (h p)) [
    | none ↦ none
    | some k ↦ put_free p slots (htab_hash_function k % newsize)
  ]

  abbrev pub place_heads : List Ptr → List Ptr → Option (List Ptr)
  place_heads [] slots = some slots
  place_heads (p ∷ ps) slots = after (place_head p slots) (place_heads ps)

  -- The keys are as before, and each slot of the new table has one item at most, which belongs there.
  pub record Midway (w : Tables) : Type 0 where
    pub keys : (a : Ptr) → key_of (w.heap a) ≡ key_of (h a)
    pub width : length w.htab.ptr ≡ newsize
    pub slots :
        (j : ℕ) (q : Ptr)
        → get_elem? w.htab.ptr j ≡ some q
        → q ≢ null
        → Belongs newsize w.heap q j × Ends w.heap q

  module _ (positive : 0 < newsize) where
    moved-Midway :
        (w : Tables) (tmp : Ptr) (item : ListItem) (i : ℕ)
        → w.heap tmp ≡ some item
        → htab_hash_function item.key % newsize ≡ i
        → i < newsize
        → Midway w
        → Midway (moved w tmp item i null)
    moved-Midway w tmp item i holds index inside m =
        let keys = write-keys w.heap tmp item null holds in
        record {
          keys = λ a. keys a ∙ m.keys a;
          width = length-set w.htab.ptr i tmp ∙ m.width;
          slots = λ j q at ne. elim (Bool-cases (i == j)) [
            | inl here ↦
                let e : i ≡ j = ground (arith, here) in
                let same : tmp ≡ q = some_inj (
                  sym (get_elem?-set_self w.htab.ptr i tmp (omega (arith, inside, m.width)))
                  ∙ ap (get_elem? (set w.htab.ptr i tmp)) e
                  ∙ at) in
                subst
                  (λ a.
                    Belongs newsize (moved w tmp item i null).heap a j
                    × Ends (moved w tmp item i null).heap a)
                  same
                  (
                    (item.key, keys tmp ∙ ap key_of holds, index ∙ e),
                    (record item { next = null }, rw (==_refl tmp) refl, refl),
                  )
            | inr there ↦
                let ne' : i ≢ j = ground (arith, there) in
                let ((k, key, place), (last, before, end)) =
                  m.slots j q (sym (get_elem?-set_ne w.htab.ptr i j tmp ne') ∙ at) ne in
                let apart : (q == tmp) ≡ false = ==_of_ne q tmp (λ e. ne' (
                  sym index
                  ∙ ap (λ l. htab_hash_function l % newsize)
                      (some_inj (sym (ap key_of (ap w.heap e ∙ holds)) ∙ key))
                  ∙ place)) in
                ((k, keys q ∙ key, place), (last, rw apart before, end))
          ];
        }

    -- What one round of the outer loop does to the new table.
    abbrev pub Placed : Tables → Option (List Ptr) → Outcome Tables (Unit {0}) → Type 0
    Placed w none r = r ≡ exhausted
    Placed w (some slots) r =
        (w' : Tables) × (r ≡ done tt w')
        × Midway w'
        × (w'.htab ≡ record w.htab { ptr = slots })
        × (w'.t2 ≡ w.t2)

    place_one :
        (fuel : ℕ) (w : Tables) (p q : Ptr) (k : Key)
        → p ≢ null
        → key_of (h p) ≡ some k
        → Midway w
        → get_elem? w.htab.ptr (htab_hash_function k % newsize) ≡ some q
        → Placed w
            (put_free p w.htab.ptr (htab_hash_function k % newsize))
            (move_chain newsize (suc fuel) p w)
    place_one fuel w p q k ne key m at =
        let i = htab_hash_function k % newsize in
        let inside = mod-lt (htab_hash_function k) positive in
        let here : key_of (w.heap p) ≡ some k = m.keys p ∙ key in
        elim (Bool-cases (q == null)) [
          | inl empty ↦
              let e : q ≡ null = ground (arith, empty) in
              let (item, holds, same) = item_of (w.heap p) k here in
              let index = ap (λ l. htab_hash_function l % newsize) same in
              let free : put_free p w.htab.ptr i ≡ some (set w.htab.ptr i p) =
                simp (put_free, at, empty) refl in
              subst (λ o. Placed w o (move_chain newsize (suc fuel) p w)) (sym free)
                (
                  moved w p item i null,
                  move_chain-once newsize positive fuel w p item i ne holds index (at ∙ ap some e),
                  moved-Midway w p item i holds index inside m,
                  refl,
                  refl,
                )
          | inr taken ↦
              let ne' : q ≢ null = ground (arith, taken) in
              let full : put_free p w.htab.ptr i ≡ none = simp (put_free, at, taken) refl in
              subst (λ o. Placed w o (move_chain newsize (suc fuel) p w)) (sym full)
                (move_chain-stuck newsize positive (suc fuel) w p q i ne ne' (k, here, refl)
                  (m.slots i q at ne').0 at (omega (arith, inside, m.width)))
        ]

    pub place_head_lem :
        (fuel : ℕ) (w : Tables) (p : Ptr)
        → IsLive h p
        → Midway w
        → Placed w (place_head p w.htab.ptr) (move_chain newsize (suc fuel) p w)
    place_head_lem fuel w p live m = elim (Bool-cases (p == null)) [
      | inl absent ↦
          let e : p ≡ null = ground (arith, absent) in
          rw absent (
            w,
            ap (λ a. move_chain newsize (suc fuel) a w) e
                ∙ move_chain-null newsize positive (suc fuel) w,
            m,
            refl,
            refl,
          )
      | inr present ↦
          let ne : p ≢ null = ground (arith, present) in
          let (k, key) = live ne in
          let inside : htab_hash_function k % newsize < length w.htab.ptr =
            omega (arith, m.width, mod-lt (htab_hash_function k) positive) in
          let (q, at) = get_elem?-of_lt w.htab.ptr (htab_hash_function k % newsize) inside in
          rw present (rw key (place_one fuel w p q k ne key m at))
    ]
