-- ===== src/LinkedTable/Move.antt =====
-- `htab_move` and `htab_free`. The loop of `htab_move` goes on from an item after it has changed the link of that
-- item, so here the items are on a heap, and `ptr` holds addresses.
pub mod Placed
pub mod Heads
pub mod Loop
use school_projects.Base.{
  ℕ, zero, suc, ◌+◌, ◌%◌, Bool, true, false, Option, none, some, List, [], ◌∷◌, ◌==◌, get_elem?,
  set, if◌then◌else◌,
}
use school_projects.Memory.{
  Ptr, null, Heap, write, Cmd, Outcome, done, undefined, exhausted, pure, ◌>>=◌, ◌>>◌,
}
use school_projects.HashTable.{Key}
use school_projects.LinkedTable.{Htab, htab_clear, htab_hash_function, release}

-- `struct htab_listitem`
pub record ListItem : Type 0 where
  pub key : Key
  pub data_ : ℕ
  pub next : Ptr

-- `htab_t`
pub record Slots : Type 0 where
  pub size : ℕ
  pub arr_size : ℕ
  pub ptr : List Ptr

-- The items, `*t2`, and `*htab`.
pub record Tables : Type 0 where
  pub heap : Heap ListItem
  pub t2 : Slots
  pub htab : Slots

abbrev pub Op : Type 0 → Type 0
Op = Cmd Tables

-- `*tmp`
unfoldable pub item_at : Ptr → Op ListItem
item_at tmp w = elim (w.heap tmp) [ none ↦ undefined | some item ↦ done item w ]

-- `tmp->next = next`
unfoldable pub set_next : (tmp next : Ptr) → Op (Unit {0})
unfolding item_at
set_next tmp next = do
  item ← item_at tmp
  (λ w. done tt (record w { heap = write w.heap tmp (some (record item { next = next })) }))

unfoldable pub slot_of : List Ptr → ℕ → Op Ptr
slot_of slots i w = elim (get_elem? slots i) [ none ↦ undefined | some p ↦ done p w ]

-- `htab->ptr[index]`, read and written.
unfoldable pub read_new : ℕ → Op Ptr
unfolding slot_of
read_new i w = slot_of w.htab.ptr i w

unfoldable pub write_new : ℕ → Ptr → Op (Unit {0})
unfolding read_new
write_new i p = do
  read_new i
  (λ w. done tt (record w { htab = record w.htab { ptr = set w.htab.ptr i p } }))

-- `t2->ptr[i]`, read and set to NULL.
unfoldable pub read_old : ℕ → Op Ptr
unfolding slot_of
read_old i w = slot_of w.t2.ptr i w

unfoldable pub clear_old : ℕ → Op (Unit {0})
unfolding read_old
clear_old i = do
  read_old i
  (λ w. done tt (record w { t2 = record w.t2 { ptr = set w.t2.ptr i null } }))

abbrev pub nulls : ℕ → List Ptr
nulls zero = []
nulls (suc k) = null ∷ nulls k

abbrev pub end_move : Op (Unit {0})
end_move w = done tt (record w { t2 = record w.t2 { size = 0 } })

abbrev pub bucket_count : Op ℕ
bucket_count w = done w.t2.arr_size w

module _ (newsize : ℕ) where
  -- The remainder by 0 is undefined.
  unfoldable pub new_index : Key → Op ℕ
  new_index key w = if newsize == 0 then undefined else done (htab_hash_function key % newsize) w

  unfoldable pub put_first : (tmp : Ptr) → Op (Unit {0})
  unfolding item_at new_index read_new write_new set_next
  put_first tmp = do
    item ← item_at tmp
    index ← new_index item.key
    first ← read_new index
    if first == null
        then (do write_new index tmp; set_next tmp null)
        else (do write_new index tmp; set_next tmp first)

  -- The inner loop, with fuel for its rounds.
  unfoldable pub move_chain : (fuel : ℕ) → (tmp : Ptr) → Op (Unit {0})
  unfolding put_first item_at
  move_chain zero tmp = if tmp == null then pure tt else (λ w. exhausted)
  move_chain (suc fuel) tmp =
      if tmp == null
      then pure tt
      else (do put_first tmp; item ← item_at tmp; move_chain fuel item.next)

  -- The loop over the slots of `t2`, `k` of them from `i` on.
  unfoldable pub move_loop : (fuel k i : ℕ) → Op (Unit {0})
  unfolding move_chain read_old clear_old
  move_loop fuel zero i = pure tt
  move_loop fuel (suc k) i = do
    tmp ← read_old i
    move_chain fuel tmp
    clear_old i
    move_loop fuel k (suc i)

  -- `htab_init(newsize)`, and `htab->size = t2->size`.
  abbrev pub start_move : Op (Unit {0})
  start_move w =
      done tt
        (record w { htab = record { size = w.t2.size; arr_size = newsize; ptr = nulls newsize } })

  -- `given` tells whether `t2` is not NULL, and `p` is what `malloc` returns in `htab_init`.
  unfoldable pub htab_move : (fuel : ℕ) → (given : Bool) → (p : Ptr) → Op Ptr
  unfolding move_loop
  htab_move fuel false p = pure null
  htab_move fuel true p =
      if p == null
      then pure null
      else (do start_move; count ← bucket_count; move_loop fuel count 0; end_move; pure p)

-- `t` is the address of the table, which `htab_clear` does not free.
unfoldable pub htab_free : (given : Bool) → (t : Ptr) → Cmd Htab (Unit {0})
unfolding htab_clear
htab_free given t = do htab_clear given; if given then release (t ∷ []) else pure tt
