-- ===== src/LinkedTable/Count.antt =====
-- The table as a map from keys to counts, and `htab_lookup_add`.
use school_projects.Base.{
  ℕ, suc, ◌<◌, ◌%◌, ◌≡◌, ◌≢◌, refl, ap, sym, subst, ◌∙◌, true, false, Bool-cases, Option-cases, inl,
  inr, Option, none, some, List, [], ◌∷◌, ◌++◌, arith, ◌==◌, ==_of_ne, if◌then◌else◌, length, set,
  length-set,
}
use school_projects.Memory.{Ptr, null, done}
use school_projects.Memory.Returns.{Returns}
use school_projects.HashTable.{Key, Item, same_key}
use school_projects.HashTable.Chain.{same_key-eq, same_key_comm}
use school_projects.HashTable.Lookup.{slot, slot-get_elem?, slot-set}
use school_projects.LinkedTable.{
  Htab, ulong, htab_hash_function, index_of, read_ptr, write_ptr, bump, search, htab_lookup_add,
}
use native.Mathlib.Nat.{mod-lt}

-- How often a key has been counted in a chain, and in a table.
abbrev pub counted : Option (Item ℕ) → ℕ
counted none = 0
counted (some tmp) = tmp.data_

abbrev pub count : Htab → Key → ℕ
count t key = counted (search (slot t.ptr (htab_hash_function key % t.arr_size)) key)

pub record IsTable (t : Htab) : Type 0 where
  pub positive : 0 < t.arr_size
  pub allocated : length t.ptr ≡ t.arr_size

search-bump :
    (chain : List (Item ℕ)) (k k' : Key) (tmp : Item ℕ)
    → search chain k ≡ some tmp
    → counted (search (bump chain k) k')
      ≡ (if same_key k k' then ulong (suc tmp.data_) else counted (search chain k'))
search-bump [] k k' tmp h = cc
search-bump (t ∷ chain) k k' tmp h = elim (Bool-cases (same_key k t.key)) [
  | inl same ↦
      let e : same_key k' t.key ≡ same_key k k' =
        same_key_comm k' t.key ∙ ap (λ l. same_key l k') (sym (same_key-eq k t.key same)) in
      ground (arith, same, e)
  | inr other ↦
      let later : search chain k ≡ some tmp = ground (arith, other, h) in
      let apart : same_key k k' ≡ true → same_key k' t.key ≡ false =
        λ e. subst (λ l. same_key l t.key ≡ false) (same_key-eq k k' e) other in
      ground (arith, other, search-bump chain k k' tmp later, apart)
]

search-append :
    (chain : List (Item ℕ)) (k k' : Key) (new : Item ℕ)
    → new.key ≡ k
    → search chain k ≡ none
    → counted (search (chain ++ (new ∷ [])) k')
      ≡ (if same_key k k' then new.data_ else counted (search chain k'))
search-append [] k k' new same h =
    let e : same_key k' new.key ≡ same_key k k' =
      same_key_comm k' new.key ∙ ap (λ l. same_key l k') same in
    ground (arith, e)
search-append (t ∷ chain) k k' new same h =
    let other : same_key k t.key ≡ false = ground (arith, h) in
    let later : search chain k ≡ none = ground (arith, h) in
    let apart : same_key k k' ≡ true → same_key k' t.key ≡ false =
      λ e. subst (λ l. same_key l t.key ≡ false) (same_key-eq k k' e) other in
    ground (arith, search-append chain k k' new same later, apart)

module _ (t : Htab) (is : IsTable t) where
  abbrev pub place : Key → ℕ
  place key = htab_hash_function key % t.arr_size

  pub place-inside : (key : Key) → place key < length t.ptr
  place-inside key = ground (arith, mod-lt (htab_hash_function key) is.positive, is.allocated)

  pub index_of-done : (key : Key) → index_of key t ≡ done (place key) t
  unfolding index_of
  index_of-done key =
      let nonzero : (t.arr_size == 0) ≡ false = ground (arith, is.positive) in rw nonzero

  pub read_ptr-done : (key : Key) → read_ptr (place key) t ≡ done (slot t.ptr (place key)) t
  unfolding read_ptr
  read_ptr-done key =
      let there = slot-get_elem? t.ptr (place key) (place-inside key) in ground (arith, there)

  abbrev with_chain : Key → List (Item ℕ) → Htab
  with_chain key chain = record t { ptr = set t.ptr (place key) chain }

  pub write_ptr-done :
      (key : Key) (chain : List (Item ℕ))
      → write_ptr (place key) chain t ≡ done tt (with_chain key chain)
  unfolding write_ptr
  write_ptr-done key chain =
      let there = slot-get_elem? t.ptr (place key) (place-inside key) in ground (arith, there)

  -- The chain of a key has been written: its count is `n`, and all other counts are as before.
  pub written :
      (key : Key) (chain : List (Item ℕ)) (n : ℕ)
      → ((k' : Key)
          → counted (search chain k')
            ≡ (if same_key key k' then n else counted (search (slot t.ptr (place key)) k')))
      → (k' : Key)
      → counted (search (slot (set t.ptr (place key) chain) (place k')) k')
        ≡ (if same_key key k' then n else count t k')
  written key chain n effect k' = elim (Bool-cases (place key == place k')) [
    | inl here ↦
        let e : place k' ≡ place key = ground (arith, here) in
        let new : slot (set t.ptr (place key) chain) (place k') ≡ chain =
          ground (arith, slot-set t.ptr (place key) (place k') chain (place-inside key), here) in
        simp new (simp e (effect k'))
    | inr there ↦
        let other : same_key key k' ≡ false = elim (Bool-cases (same_key key k')) [
          | inl same ↦
              let e : place key ≡ place k' = ap place (same_key-eq key k' same) in
              ground (arith, e, there)
          | inr other ↦ other
        ] in
        simp (slot-set t.ptr (place key) (place k') chain (place-inside key), there, other) refl
  ]

  -- In a table with a slot for each index, `htab_lookup_add` adds one to the count of its key, which is 0
  -- for a key that is not there, on 64 bits, and keeps all other counts, if `malloc` succeeds.
  pub htab_lookup_add-counts :
      (to_be_added string : Ptr) (key : Key)
      → to_be_added ≢ null
      → string ≢ null
      → Returns
          (λ _ t'.
            IsTable t'
            × ((k' : Key)
                → count t' k'
                  ≡ (if same_key key k' then ulong (suc (count t key)) else count t k')))
          (htab_lookup_add to_be_added string true (some key) t)
  unfolding htab_lookup_add
  htab_lookup_add-counts p q key pn qn =
      let old = slot t.ptr (place key) in
      let item : Item ℕ = record { address = p; key_address = q; key = key; data_ = 1 } in
      elim (Option-cases (search old key)) [
        | inl free ↦
            simp (index_of-done key, read_ptr-done key)
              (simp
                (
                  free,
                  ==_of_ne p null pn,
                  ==_of_ne q null qn,
                  write_ptr-done key (old ++ (item ∷ [])),
                )
                (
                  record {
                    positive = is.positive;
                    allocated =
                        ground
                          (arith, is.allocated, length-set t.ptr (place key) (old ++ (item ∷ [])));
                  },
                  written key (old ++ (item ∷ [])) 1
                      (λ k'. search-append old key k' item refl free),
                ))
        | inr (tmp, found) ↦
            simp (index_of-done key, read_ptr-done key)
              (simp (found, write_ptr-done key (bump old key))
                (
                  record {
                    positive = is.positive;
                    allocated =
                        ground (arith, is.allocated, length-set t.ptr (place key) (bump old key));
                  },
                  written key (bump old key) (ulong (suc tmp.data_))
                      λ k'. search-bump old key k' tmp found,
                ))
      ]
