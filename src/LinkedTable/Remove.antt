-- ===== src/LinkedTable/Remove.antt =====
-- `htab_remove`.
use school_projects.Base.{
  ℕ, zero, suc, ◌+◌, ◌-◌, ◌%◌, ◌^◌, ◌<◌, ◌≡◌, refl, ap, sym, subst, ◌∙◌, Bool, true, false,
  Bool-cases, Option-cases, inl, inr, Option, none, some, List, [], ◌∷◌, ◌++◌, append-nil, arith,
  ◌==◌, if◌then◌else◌, length, set, length-set,
}
use school_projects.Memory.{Ptr}
use school_projects.Memory.Returns.{Returns}
use school_projects.HashTable.{Key, Item, same_key}
use school_projects.HashTable.Chain.{same_key-eq, same_key_comm}
use school_projects.HashTable.Lookup.{slot, slot-set}
use school_projects.LinkedTable.{Htab, search, remove_loop, htab_remove}
use school_projects.LinkedTable.Count.{
  IsTable, counted, count, place, place-inside, index_of-done, read_ptr-done, write_ptr-done,
  written,
}

-- No key is twice in a chain.
abbrev pub Alone : List (Item ℕ) → Type 0
Alone [] = Unit
Alone (tmp ∷ chain) = (search chain tmp.key ≡ none) × Alone chain

-- The number of items in a table.
abbrev pub items : List (List (Item ℕ)) → ℕ
items [] = 0
items (chain ∷ ptr) = length chain + items ptr

-- The blocks of an item: its key and itself.
abbrev pub blocks : Option (Item ℕ) → List Ptr
blocks none = []
blocks (some tmp) = tmp.key_address ∷ tmp.address ∷ []

abbrev pub is_some : Option (Item ℕ) → Bool
is_some none = false
is_some (some tmp) = true

remove_loop-found :
    (chain : List (Item ℕ)) (k : Key) → (remove_loop chain k).0 ≡ is_some (search chain k)
remove_loop-found [] k = refl
remove_loop-found (t ∷ chain) k = ground (arith, remove_loop-found chain k)

remove_loop-gone :
    (chain : List (Item ℕ)) (k : Key) → (remove_loop chain k).2 ≡ blocks (search chain k)
remove_loop-gone [] k = refl
remove_loop-gone (t ∷ chain) k = ground (arith, remove_loop-gone chain k)

length-remove_loop :
    (chain : List (Item ℕ)) (k : Key) (tmp : Item ℕ)
    → search chain k ≡ some tmp
    → suc (length (remove_loop chain k).1) ≡ length chain
length-remove_loop [] k tmp h = cc
length-remove_loop (t ∷ chain) k tmp h = ground (arith, h, length-remove_loop chain k tmp)

search-remove_loop :
    (chain : List (Item ℕ)) (k k' : Key)
    → Alone chain
    → counted (search (remove_loop chain k).1 k')
      ≡ (if same_key k k' then 0 else counted (search chain k'))
search-remove_loop [] k k' h = ground arith
search-remove_loop (t ∷ chain) k k' (alone, rest) = elim (Bool-cases (same_key k t.key)) [
  | inl same ↦
      let e : same_key k' t.key ≡ same_key k k' =
        same_key_comm k' t.key ∙ ap (λ l. same_key l k') (sym (same_key-eq k t.key same)) in
      let gone : same_key k k' ≡ true → search chain k' ≡ none = λ h.
        subst (λ l. search chain l ≡ none) (sym (same_key-eq k t.key same) ∙ same_key-eq k k' h)
          alone in
      ground (arith, same, e, gone)
  | inr other ↦
      let apart : same_key k k' ≡ true → same_key k' t.key ≡ false =
        λ e. subst (λ l. same_key l t.key ≡ false) (same_key-eq k k' e) other in
      ground (arith, other, search-remove_loop chain k k' rest, apart)
]

search-remove_loop-none :
    (chain : List (Item ℕ)) (k l : Key)
    → search chain l ≡ none
    → search (remove_loop chain k).1 l ≡ none
search-remove_loop-none [] k l h = refl
search-remove_loop-none (t ∷ chain) k l h = ground (arith, search-remove_loop-none chain k l)

remove_loop-Alone : (chain : List (Item ℕ)) (k : Key) → Alone chain → Alone (remove_loop chain k).1
remove_loop-Alone [] k h = tt
remove_loop-Alone (t ∷ chain) k (alone, rest) =
    ground (arith, remove_loop-Alone chain k rest, search-remove_loop-none chain k t.key)

items-set :
    (ps : List (List (Item ℕ))) (i : ℕ) (c : List (Item ℕ))
    → i < length ps
    → items (set ps i c) + length (slot ps i) ≡ items ps + length c
items-set [] i c h = absurd (omega arith)
items-set (p ∷ ps) zero c h = omega arith
items-set (p ∷ ps) (suc i) c h = omega (arith, items-set ps i c (omega (arith, h)))

-- A table whose `size` is the number of its items, with no key twice in a chain.
pub record IsSized (t : Htab) : Type 0 where
  pub table : IsTable t
  pub alone : (i : ℕ) → Alone (slot t.ptr i)
  pub size : t.size ≡ items t.ptr
  pub fits : items t.ptr < 2 ^ 64

module _ (t : Htab) (is : IsSized t) where
  abbrev pub chain_of : Key → List (Item ℕ)
  chain_of key = slot t.ptr (place t is.table key)

  -- The table without the item that `search` finds.
  without :
      (key : Key) (tmp : Item ℕ)
      → search (chain_of key) key ≡ some tmp
      → let rest = (remove_loop (chain_of key) key).1 in
        IsSized (record t {
          ptr = set t.ptr (place t is.table key) rest;
          size = (t.size + (2 ^ 64 - 1)) % 2 ^ 64;
          freed = t.freed ++ blocks (some tmp);
        })
  without key tmp found =
      let rest = (remove_loop (chain_of key) key).1 in
      let p = place t is.table key in
      let inside = place-inside t is.table key in
      let total : items (set t.ptr p rest) + length (chain_of key) ≡ items t.ptr + length rest =
        items-set t.ptr p rest inside in
      let shorter : suc (length rest) ≡ length (chain_of key) =
        length-remove_loop (chain_of key) key tmp found in
      let less : suc (items (set t.ptr p rest)) ≡ items t.ptr = omega (arith, total, shorter) in
      record {
        table = record {
          positive = is.table.positive;
          allocated = length-set t.ptr p rest ∙ is.table.allocated;
        };
        alone = λ j. elim (Bool-cases (p == j)) [
          | inl here ↦
              rw (slot-set t.ptr p j rest inside)
                (rw here (remove_loop-Alone (chain_of key) key (is.alone p)))
          | inr there ↦ rw (slot-set t.ptr p j rest inside) (rw there (is.alone j))
        ];
        size = omega (arith, is.size, is.fits, less);
        fits = omega (arith, is.fits, less);
      }

  uncounted :
      (key : Key)
      → search (chain_of key) key ≡ none
      → (k' : Key) → count t k' ≡ (if same_key key k' then 0 else count t k')
  uncounted key free k' = elim (Bool-cases (same_key key k')) [
    | inl same ↦ rw same (ap (count t) (sym (same_key-eq key k' same)) ∙ ap counted free)
    | inr other ↦ rw other refl
  ]

  append_same : {ps : List Ptr} → [] ≡ ps → t.freed ≡ t.freed ++ ps
  append_same e = sym (append-nil t.freed) ∙ ap (λ ps. t.freed ++ ps) e

  -- If the size of a table is the number of its items, and no key is twice in a chain, `htab_remove` keeps it
  -- so. It tells whether the key was there, leaves no count of it and all other counts as they are, and
  -- frees the two blocks of its item, nothing otherwise.
  pub htab_remove_lem :
      (key : Key)
      → Returns
          (λ found t'.
            IsSized t'
            × (found ≡ is_some (search (chain_of key) key))
            × (t'.freed ≡ t.freed ++ blocks (search (chain_of key) key))
            × ((k' : Key) → count t' k' ≡ (if same_key key k' then 0 else count t k')))
          (htab_remove true (some key) t)
  unfolding htab_remove
  htab_remove_lem key =
      let old = chain_of key in
      let rest = (remove_loop old key).1 in
      elim (Option-cases (search old key)) [
        | inl free ↦
            let missing : (remove_loop old key).0 ≡ false =
              remove_loop-found old key ∙ ap is_some free in
            simp (index_of-done t is.table key, read_ptr-done t is.table key)
              (simp missing
                (is, sym (ap is_some free), append_same (sym (ap blocks free)), uncounted key free))
        | inr (tmp, found) ↦
            let there : (remove_loop old key).0 ≡ true =
              remove_loop-found old key ∙ ap is_some found in
            let gone : (remove_loop old key).2 ≡ blocks (some tmp) =
              remove_loop-gone old key ∙ ap blocks found in
            simp (index_of-done t is.table key, read_ptr-done t is.table key)
              (simp (there, gone, write_ptr-done t is.table key rest)
                (
                  without key tmp found,
                  sym (ap is_some found),
                  ap (λ ps. t.freed ++ ps) (sym (ap blocks found)),
                  written t is.table key rest 0
                      (λ k'. search-remove_loop old key k' (is.alone (place t is.table key))),
                ))
      ]
