-- ===== src/HashTable.antt =====
-- The hash table with chains of synonyms of sem_3/ial/proj_2/c016/c016.c and c016.h. A chain is reached
-- from its slot only, so it is a list; an item holds the addresses of its two blocks. `htsize` is the
-- global `HTSIZE`, and `D` is `tData`.
pub mod Chain
pub mod Lookup
pub mod Clear
mod Tests
use school_projects.Base.{
  ℕ, zero, suc, ◌%◌, ◌-◌, Bool, true, false, Option, none, some, List, [], ◌∷◌, ◌++◌, ◌==◌, ◌&&◌,
  ◌||◌, get_elem?, set, if◌then◌else◌,
}
use school_projects.Base.Int.{ℤ, pos, negsuc, eqb_ℤ, ◌+ℤ◌}
use school_projects.Memory.{Ptr, null, Cmd, Outcome, done, undefined, pure, ◌>>=◌, ◌>>◌}

abbrev pub Key : Type 0
Key = List ℤ

-- `strcmp(a, b) == 0`
abbrev pub same_key : Key → Key → Bool
same_key [] [] = true
same_key (a ∷ k) (b ∷ l) = eqb_ℤ a b && same_key k l
same_key _ _ = false

-- C's `a % m`, whose sign is that of `a`.
abbrev pub rem : ℤ → ℕ → ℤ
rem (pos n) m = pos (n % m)
rem (negsuc n) m = if suc n % m == 0 then pos 0 else negsuc ((suc n % m) - 1)

-- The loop of `hashCode`, from `retval` on: a `char` may be negative.
abbrev pub hash_loop : ℤ → Key → ℤ
hash_loop retval [] = retval
hash_loop retval (c ∷ key) = hash_loop (retval +ℤ c) key

unfoldable pub hash_code : ℕ → Key → ℤ
hash_code htsize key = rem (hash_loop (pos 1) key) htsize

-- `tHTItem`, with its address and that of its key.
pub record Item (D : Type 0) : Type 0 where
  pub address : Ptr
  pub key_address : Ptr
  pub key : Key
  pub data_ : D

-- A table, and the addresses that have been freed.
pub record HashWorld (D : Type 0) : Type 0 where
  pub slots : List (List (Item D))
  pub freed : List Ptr

-- The loop of `htSearch`.
abbrev pub find : {D : Type 0} → List (Item D) → Key → Option (Item D)
find [] key = none
find (tmp ∷ chain) key = if same_key tmp.key key then some tmp else find chain key

-- `&(tmp->data)`, or NULL if there is no item.
abbrev pub data_of : {D : Type 0} → Option (Item D) → Option D
data_of none = none
data_of (some tmp) = some tmp.data_

-- `tmp->data = data` for the item that `htSearch` finds.
abbrev pub update : {D : Type 0} → List (Item D) → Key → D → List (Item D)
update [] key value = []
update (tmp ∷ chain) key value =
    if same_key tmp.key key
    then record tmp { data_ = value } ∷ chain
    else tmp ∷ update chain key value

-- The loop of `htDelete`: the chain without the item, and the addresses that are freed.
abbrev pub unlink : {D : Type 0} → List (Item D) → Key → List (Item D) × List Ptr
unlink [] key = ([], [])
unlink (tmp ∷ chain) key =
    let (rest, gone) = unlink chain key in
    if same_key tmp.key key then (chain, tmp.key_address ∷ tmp.address ∷ []) else (tmp ∷ rest, gone)

-- The inner loop of `htClearAll`.
abbrev pub clear_chain : {D : Type 0} → List (Item D) → List Ptr
clear_chain [] = []
clear_chain (tmp ∷ chain) = tmp.key_address ∷ tmp.address ∷ clear_chain chain

-- `(*ptrht)[index]`, on either side of an assignment: outside the array it is undefined.
unfoldable pub read_slot : {D : Type 0} → ℤ → Cmd (HashWorld D) (List (Item D))
read_slot (negsuc i) w = undefined
read_slot (pos i) w = elim (get_elem? w.slots i) [ none ↦ undefined | some chain ↦ done chain w ]

unfoldable pub write_slot : {D : Type 0} → ℤ → List (Item D) → Cmd (HashWorld D) (Unit {0})
write_slot (negsuc i) chain w = undefined
write_slot (pos i) chain w = elim (get_elem? w.slots i) [
  | none ↦ undefined
  | some _ ↦ done tt (record w { slots = set w.slots i chain })
]

abbrev pub release : {D : Type 0} → List Ptr → Cmd (HashWorld D) (Unit {0})
release ps w = done tt (record w { freed = w.freed ++ ps })

-- The loops over the slots, from slot `i` on, `k` of them.
unfoldable pub init_loop : {D : Type 0} → ℕ → ℕ → Cmd (HashWorld D) (Unit {0})
init_loop zero i = pure tt
init_loop (suc k) i = do write_slot (pos i) []; init_loop k (suc i)

unfoldable pub clear_loop : {D : Type 0} → ℕ → ℕ → Cmd (HashWorld D) (Unit {0})
clear_loop zero i = pure tt
clear_loop (suc k) i = do
  next ← read_slot (pos i)
  release (clear_chain next)
  write_slot (pos i) []
  clear_loop k (suc i)

-- `given` tells whether `ptrht` is not NULL; a key that is NULL is `none`.
module _ {D : Type 0} (htsize : ℕ) where
  unfoldable pub ht_init : Bool → Cmd (HashWorld D) (Unit {0})
  ht_init given = if given then init_loop htsize 0 else pure tt

  unfoldable pub ht_search : Bool → Option Key → Cmd (HashWorld D) (Option (Item D))
  ht_search false key = pure none
  ht_search true none = pure none
  ht_search true (some key) = do chain ← read_slot (hash_code htsize key); pure (find chain key)

  -- `tmp` and `copy` are what the two calls of `malloc` return, if they are called.
  unfoldable pub ht_insert : Ptr → Ptr → Bool → Option Key → D → Cmd (HashWorld D) (Unit {0})
  ht_insert tmp copy false key value = pure tt
  ht_insert tmp copy true none value = pure tt
  ht_insert tmp copy true (some key) value = do
    found ← ht_search true (some key)
    chain ← read_slot (hash_code htsize key)
    elim found [
      | some _ ↦ write_slot (hash_code htsize key) (update chain key value)
      | none ↦
          if (tmp == null) || (copy == null)
          then pure tt
          else write_slot (hash_code htsize key)
              (record { address = tmp; key_address = copy; key = key; data_ = value } ∷ chain)
    ]

  unfoldable pub ht_read : Bool → Option Key → Cmd (HashWorld D) (Option D)
  ht_read false key = pure none
  ht_read true none = pure none
  ht_read true (some key) = do found ← ht_search true (some key); pure (data_of found)

  unfoldable pub ht_delete : Bool → Option Key → Cmd (HashWorld D) (Unit {0})
  ht_delete false key = pure tt
  ht_delete true none = pure tt
  ht_delete true (some key) = do
    chain ← read_slot (hash_code htsize key)
    write_slot (hash_code htsize key) (unlink chain key).0
    release (unlink chain key).1

  unfoldable pub ht_clear_all : Bool → Cmd (HashWorld D) (Unit {0})
  ht_clear_all given = if given then clear_loop htsize 0 else pure tt
