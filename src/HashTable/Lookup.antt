-- ===== src/HashTable/Lookup.antt =====
-- The table as a map from keys to data: what `htInsert` and `htDelete` change, and what `htRead` finds.
use school_projects.Base.{
  ℕ, zero, suc, ◌+◌, ◌<◌, ◌≤◌, ◌%◌, ◌≡◌, ◌≢◌, refl, ap, sym, ◌∙◌, true, false, Bool-cases,
  Option-cases, inl, inr, Option, none, some, List, [], ◌∷◌, arith, ◌==◌, ==_of_ne, ==_refl,
  if◌then◌else◌, length, get_elem?, set, length-set,
}
use school_projects.Base.Int.{ℤ, pos, negsuc, ◌+ℤ◌}
use school_projects.Memory.{Ptr, null, done, undefined}
use school_projects.Memory.Returns.{Returns}
use school_projects.HashTable.{
  Key, same_key, hash_loop, hash_code, Item, HashWorld, data_of, find, update, unlink, read_slot,
  write_slot, ht_search, ht_insert, ht_read, ht_delete,
}
use school_projects.HashTable.Chain.{
  same_key-eq, Unique, find-update, find-unlink, Unique-update, Unique-unlink,
}
use native.Mathlib.Nat.{mod-lt}

-- A key of characters that are not negative.
abbrev pub Plain : Key → Type 0
Plain [] = Unit
Plain (pos c ∷ key) = Plain key
Plain (negsuc c ∷ key) = ⊥

hash_loop-Plain : (n : ℕ) (key : Key) → Plain key → (m : ℕ) × (hash_loop (pos n) key ≡ pos m)
hash_loop-Plain n [] plain = (n, refl)
hash_loop-Plain n (pos c ∷ key) plain =
    let sum : pos n +ℤ pos c ≡ pos (n + c) = ground arith in
    rw sum (hash_loop-Plain (n + c) key plain)
hash_loop-Plain n (negsuc c ∷ key) plain = elim plain [ ]

module _ (htsize : ℕ) (positive : 0 < htsize) where
  -- The index of such a key is inside the table.
  pub hash_code-Plain :
      (key : Key) → Plain key → (i : ℕ) × (i < htsize) × (hash_code htsize key ≡ pos i)
  unfolding hash_code
  hash_code-Plain key plain =
      let (m, e) = hash_loop-Plain 1 key plain in (m % htsize, mod-lt m positive, rw e)

module _ {D : Type 0} where
  abbrev pub slot : List (List (Item D)) → ℕ → List (Item D)
  slot [] i = []
  slot (chain ∷ slots) zero = chain
  slot (chain ∷ slots) (suc i) = slot slots i

  -- The data under a key, and under a key with a given hash code.
  abbrev pub lookup_at : List (List (Item D)) → ℤ → Key → Option D
  lookup_at slots (pos i) key = data_of (find (slot slots i) key)
  lookup_at slots (negsuc i) key = none

  abbrev pub lookup : ℕ → List (List (Item D)) → Key → Option D
  lookup htsize slots key = lookup_at slots (hash_code htsize key) key

  -- There are slots for all indices, and no key is twice in a chain.
  pub record IsTable (htsize : ℕ) (w : HashWorld D) : Type 0 where
    pub positive : 0 < htsize
    pub allocated : htsize ≤ length w.slots
    pub unique : (i : ℕ) → Unique (slot w.slots i)

  pub slot-get_elem? :
      (slots : List (List (Item D))) (i : ℕ)
      → i < length slots
      → get_elem? slots i ≡ some (slot slots i)
  slot-get_elem? [] i h = elim h [ ]
  slot-get_elem? (chain ∷ slots) zero h = refl
  slot-get_elem? (chain ∷ slots) (suc i) h = slot-get_elem? slots i (omega arith)

  pub slot-set :
      (slots : List (List (Item D))) (i j : ℕ) (chain : List (Item D))
      → i < length slots
      → slot (set slots i chain) j ≡ (if i == j then chain else slot slots j)
  slot-set [] i j chain h = elim h [ ]
  slot-set (c ∷ slots) zero zero chain h = refl
  slot-set (c ∷ slots) zero (suc j) chain h = ground arith
  slot-set (c ∷ slots) (suc i) zero chain h = ground arith
  slot-set (c ∷ slots) (suc i) (suc j) chain h = ground (arith, slot-set slots i j chain)

module _ {D : Type 0} (htsize : ℕ) (w : HashWorld D) (is : IsTable htsize w) where
  module _ (i : ℕ) (h : i < htsize) where
    read_slot-done : read_slot (pos i) w ≡ done (slot w.slots i) w
    unfolding read_slot
    read_slot-done =
        let there = slot-get_elem? w.slots i (omega (arith, h, is.allocated)) in
        ground (arith, there)

    write_slot-done :
        (chain : List (Item D))
        → write_slot (pos i) chain w ≡ done tt (record w { slots = set w.slots i chain })
    unfolding write_slot
    write_slot-done chain =
        let there = slot-get_elem? w.slots i (omega (arith, h, is.allocated)) in
        ground (arith, there)

  -- In a table with slots for all indices and no key twice in a chain, and for a key of characters
  -- that are not negative, `htRead` returns what is stored under the key and changes nothing.
  pub ht_read-lookup :
      (key : Key)
      → Plain key
      → ht_read htsize true (some key) w ≡ done (lookup htsize w.slots key) w
  unfolding ht_read ht_search
  ht_read-lookup key plain =
      let (i, h, e) = hash_code-Plain htsize is.positive key plain in
      simp (e, read_slot-done i h) refl

  module _ (i : ℕ) (chain : List (Item D)) (h : i < htsize) where
    inside : i < length w.slots
    inside = omega (arith, h, is.allocated)

    -- One slot has been written: the chain there holds `new` under the key, and all else as before.
    stored_at :
        (key k' : Key) (new : Option D) (z : ℤ)
        → (same_key key k' ≡ true → z ≡ pos i)
        → data_of (find chain k')
          ≡ (if same_key key k' then new else data_of (find (slot w.slots i) k'))
        → lookup_at (set w.slots i chain) z k'
          ≡ (if same_key key k' then new else lookup_at w.slots z k')
    stored_at key k' new (negsuc j) same effect = elim (Bool-cases (same_key key k')) [
      | inl yes_ ↦ let wrong = same yes_ in cc
      | inr other ↦ simp other refl
    ]
    stored_at key k' new (pos j) same effect = elim (Bool-cases (i == j)) [
      | inl here ↦
          let e : i ≡ j = ground (arith, here) in
          simp (slot-set w.slots i j chain inside, ==_refl i, ← e) effect
      | inr there ↦
          let no_match : same_key key k' ≡ false = elim (Bool-cases (same_key key k')) [
            | inl yes_ ↦ let e = same yes_ in ground (arith, e, there)
            | inr other ↦ other
          ] in
          simp (slot-set w.slots i j chain inside, there, no_match) refl
    ]

    written : Unique chain → IsTable htsize (record w { slots = set w.slots i chain })
    written unique = record {
      positive = is.positive;
      allocated = ground (arith, is.allocated, length-set w.slots i chain);
      unique = λ j. elim (Bool-cases (i == j)) [
        | inl here ↦ simp (slot-set w.slots i j chain inside, here) unique
        | inr there ↦ simp (slot-set w.slots i j chain inside, there) (is.unique j)
      ];
    }

    stored :
        (key : Key) (new : Option D)
        → hash_code htsize key ≡ pos i
        → ((k' : Key)
            → data_of (find chain k')
              ≡ (if same_key key k' then new else data_of (find (slot w.slots i) k')))
        → (k' : Key)
        → lookup htsize (set w.slots i chain) k'
          ≡ (if same_key key k' then new else lookup htsize w.slots k')
    stored key new e effect k' =
        stored_at key k' new (hash_code htsize k')
          (λ h. ap (hash_code htsize) (sym (same_key-eq key k' h)) ∙ e) (effect k')

  -- In a table with slots for all indices and no key twice in a chain, for a key of characters
  -- that are not negative, and if `malloc` succeeds, `htInsert` keeps the table so, stores the
  -- value under the key, and keeps what is stored under every other key.
  pub ht_insert-stores :
      (tmp copy : Ptr) (key : Key) (value : D)
      → tmp ≢ null
      → copy ≢ null
      → Plain key
      → Returns
          (λ _ w'.
            IsTable htsize w'
            × ((k' : Key)
                → lookup htsize w'.slots k'
                  ≡ (if same_key key k' then some value else lookup htsize w.slots k')))
          (ht_insert htsize tmp copy true (some key) value w)
  unfolding ht_insert ht_search
  ht_insert-stores tmp copy key value tn cn plain =
      let (i, h, e) = hash_code-Plain htsize is.positive key plain in
      let old = slot w.slots i in
      let item : Item D = record { address = tmp; key_address = copy; key = key; data_ = value } in
      elim (Option-cases (find old key)) [
        | inl free ↦
            simp
              (
                e,
                read_slot-done i h,
                free,
                ==_of_ne tmp null tn,
                ==_of_ne copy null cn,
                write_slot-done i h (item ∷ old),
              )
              (
                written i (item ∷ old) h (free, is.unique i),
                stored i (item ∷ old) h key (some value) e λ k'. ground arith,
              )
        | inr (t, found) ↦
            simp (e, read_slot-done i h, found, write_slot-done i h (update old key value))
              (
                written i (update old key value) h (Unique-update old key value (is.unique i)),
                stored i (update old key value) h key (some value) e
                    λ k'. find-update old key k' value t found,
              )
      ]

  -- In a table with slots for all indices and no key twice in a chain, and for a key of characters
  -- that are not negative, `htDelete` keeps the table so, leaves nothing under the key, and keeps
  -- what is stored under every other key.
  pub ht_delete-removes :
      (key : Key)
      → Plain key
      → Returns
          (λ _ w'.
            IsTable htsize w'
            × ((k' : Key)
                → lookup htsize w'.slots k'
                  ≡ (if same_key key k' then none else lookup htsize w.slots k')))
          (ht_delete htsize true (some key) w)
  unfolding ht_delete
  ht_delete-removes key plain =
      let (i, h, e) = hash_code-Plain htsize is.positive key plain in
      let old = slot w.slots i in
      let next = (unlink old key).0 in
      let is' = written i next h (Unique-unlink old key (is.unique i)) in
      simp (e, read_slot-done i h, write_slot-done i h next)
        (
          record { positive = is'.positive; allocated = is'.allocated; unique = is'.unique },
          stored i next h key none e λ k'. find-unlink old key k' (is.unique i),
        )

-- With a key whose characters add up to a negative number that `HTSIZE` does not divide, `htSearch` reads
-- before the start of the table.
pub ht_search-undefined :
    {D : Type 0} (htsize : ℕ) (w : HashWorld D) (key : Key) (n : ℕ)
    → hash_loop (pos 1) key ≡ negsuc n
    → suc n % htsize ≢ 0
    → ht_search htsize true (some key) w ≡ undefined
unfolding ht_search hash_code read_slot
ht_search-undefined htsize w key n negative rest =
    simp (negative, ==_of_ne (suc n % htsize) 0 rest) refl
