-- ===== src/LinkedTable.antt =====
-- The hash table of sem_2/ijc/proj_2 (htab.h and the files htab_*.c) that wordcount.c counts words in.
-- Its chains are those of HashTable, with a count for the data; `htab_move` and `htab_free` are in Move.
pub mod Answer
pub mod Count
pub mod Clear
pub mod Remove
pub mod Move
mod Tests
use school_projects.Base.{
  ℕ, zero, suc, ◌+◌, ◌-◌, ◌*◌, ◌%◌, ◌^◌, Bool, true, false, Option, none, some, List, [], ◌∷◌, ◌++◌,
  ◌==◌, ◌||◌, get_elem?, set, if◌then◌else◌,
}
use school_projects.Base.Int.{ℤ, pos, negsuc}
use school_projects.Memory.{Ptr, null, Cmd, Outcome, done, undefined, pure, ◌>>=◌, ◌>>◌}
use school_projects.HashTable.{Key, Item, same_key}

-- `htab_t`, and the addresses that have been freed.
pub record Htab : Type 0 where
  pub size : ℕ
  pub arr_size : ℕ
  pub ptr : List (List (Item ℕ))
  pub freed : List Ptr

abbrev pub Op : Type 0 → Type 0
Op = Cmd Htab

-- An `unsigned long` has 64 bits.
abbrev pub ulong : ℕ → ℕ
ulong n = n % 2 ^ 64

-- A `char` as an `unsigned char`.
abbrev pub byte : ℤ → ℕ
byte (pos n) = n % 256
byte (negsuc n) = 255 - n % 256

-- The loop of `htab_hash_function`, on 32 bits.
abbrev pub hash_loop : ℕ → Key → ℕ
hash_loop h [] = h
hash_loop h (c ∷ str) = hash_loop ((65599 * h + byte c) % 2 ^ 32) str

unfoldable pub htab_hash_function : Key → ℕ
htab_hash_function str = hash_loop 0 str

abbrev pub get : Op Htab
get w = done w w

-- `htab_hash_function(key) % t->arr_size`: a remainder by 0 is undefined.
unfoldable pub index_of : Key → Op ℕ
index_of key w = if w.arr_size == 0 then undefined else done (htab_hash_function key % w.arr_size) w

-- `t->ptr[index]`, on either side of an assignment.
unfoldable pub read_ptr : ℕ → Op (List (Item ℕ))
read_ptr i w = elim (get_elem? w.ptr i) [ none ↦ undefined | some chain ↦ done chain w ]

unfoldable pub write_ptr : ℕ → List (Item ℕ) → Op (Unit {0})
write_ptr i chain w = elim (get_elem? w.ptr i) [
  | none ↦ undefined
  | some _ ↦ done tt (record w { ptr = set w.ptr i chain })
]

-- The loop over the new slots; `malloc` leaves them with any content.
abbrev pub cleared : ℕ → List (List (Item ℕ))
cleared zero = []
cleared (suc n) = [] ∷ cleared n

-- `p` is what `malloc` returns; NULL is returned for it.
unfoldable pub htab_init : Ptr → ℕ → Option Htab
htab_init p size =
    if p == null
    then none
    else some (record { size = 0; arr_size = size; ptr = cleared size; freed = [] })

unfoldable pub htab_size : Htab → ℕ
htab_size t = t.size

unfoldable pub htab_bucket_count : Htab → ℕ
htab_bucket_count t = t.arr_size

-- `tmp->data++` for the first item with the key, whose address is returned.
abbrev pub bump : List (Item ℕ) → Key → List (Item ℕ)
bump [] key = []
bump (tmp ∷ chain) key =
    if same_key key tmp.key
    then record tmp { data_ = ulong (suc tmp.data_) } ∷ chain
    else tmp ∷ bump chain key

-- The search of `htab_lookup_add`, `htab_find` and `htab_remove`.
abbrev pub search : List (Item ℕ) → Key → Option (Item ℕ)
search [] key = none
search (tmp ∷ chain) key = if same_key key tmp.key then some tmp else search chain key

-- `given` tells whether `t` is not NULL; a key that is NULL is `none`. `to_be_added` and `string` are what
-- the two calls of `malloc` return, if they are called.
unfoldable pub htab_lookup_add : Ptr → Ptr → Bool → Option Key → Op Ptr
htab_lookup_add to_be_added string false key = pure null
htab_lookup_add to_be_added string true none = pure null
htab_lookup_add to_be_added string true (some key) = do
  index ← index_of key
  chain ← read_ptr index
  found ← pure (search chain key)
  elim found [
    | some tmp ↦ (do write_ptr index (bump chain key); pure tmp.address)
    | none ↦
        if to_be_added == null
        then pure null
        else if string == null
        then (λ w. done null (record w { freed = w.freed ++ (to_be_added ∷ []) }))
        else (do
          write_ptr index (
              chain
              ++ (record { address = to_be_added; key_address = string; key = key; data_ = 1 }
                  ∷ []))
          (λ w. done to_be_added (record w { size = ulong (suc w.size) })))
  ]

unfoldable pub htab_find : Bool → Option Key → Op (Option (Item ℕ))
htab_find false key = pure none
htab_find true none = pure none
htab_find true (some key) = do index ← index_of key; chain ← read_ptr index; pure (search chain key)

-- The loop of `htab_remove`: whether the key was there, the chain without its item, and what is freed.
abbrev pub remove_loop : List (Item ℕ) → Key → Bool × List (Item ℕ) × List Ptr
remove_loop [] key = (false, [], [])
remove_loop (tmp ∷ chain) key =
    let (found, rest, gone) = remove_loop chain key in
    if same_key key tmp.key
    then (true, chain, tmp.key_address ∷ tmp.address ∷ [])
    else (found, tmp ∷ rest, gone)

unfoldable pub htab_remove : Bool → Option Key → Op Bool
htab_remove false key = pure false
htab_remove true none = pure false
htab_remove true (some key) = do
  index ← index_of key
  chain ← read_ptr index
  let (found, rest, gone) = remove_loop chain key in
      if found
      then (do
        write_ptr index rest
        (λ w.
            done true (record w { size = ulong (w.size + (2 ^ 64 - 1)); freed = w.freed ++ gone })))
      else pure false

-- The calls of `func`, in order; `ptr` has as many slots as `htab_bucket_count` says.
abbrev pub chain_calls : List (Item ℕ) → List (Key × ℕ)
chain_calls [] = []
chain_calls (tmp ∷ chain) = (tmp.key, tmp.data_) ∷ chain_calls chain

abbrev pub foreach_loop : List (List (Item ℕ)) → List (Key × ℕ)
foreach_loop [] = []
foreach_loop (chain ∷ ptr) = chain_calls chain ++ foreach_loop ptr

unfoldable pub htab_foreach : Bool → Htab → List (Key × ℕ)
htab_foreach false t = []
htab_foreach true t = foreach_loop t.ptr

abbrev pub is_freed : Ptr → List Ptr → Bool
is_freed a [] = false
is_freed a (p ∷ ps) = (a == p) || is_freed a ps

-- `tmp->next`, or any other field of `*tmp`: an item that has been freed may not be read.
unfoldable pub use_item : Item ℕ → Op (Unit {0})
use_item tmp w = if is_freed tmp.address w.freed then undefined else done tt w

abbrev pub release : List Ptr → Op (Unit {0})
release ps w = done tt (record w { freed = w.freed ++ ps })

-- The inner loop of `htab_clear`: `tmp->next` is read after `tmp` is freed.
unfoldable pub clear_chain : List (Item ℕ) → Op (Unit {0})
clear_chain [] = pure tt
clear_chain (tmp ∷ chain) = do
  use_item tmp
  release (tmp.key_address ∷ tmp.address ∷ [])
  use_item tmp
  clear_chain chain

-- The loop over the slots, from slot `i` on, `k` of them.
unfoldable pub clear_loop : ℕ → ℕ → Op (Unit {0})
clear_loop zero i = pure tt
clear_loop (suc k) i = do
  chain ← read_ptr i
  clear_chain chain
  write_ptr i []
  clear_loop k (suc i)

unfoldable pub htab_clear : Bool → Op (Unit {0})
htab_clear false = pure tt
htab_clear true = do
  t ← get
  clear_loop (htab_bucket_count t) 0
  (λ w. done tt (record w { size = 0 }))
