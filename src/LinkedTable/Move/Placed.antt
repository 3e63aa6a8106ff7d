-- ===== src/LinkedTable/Move/Placed.antt =====
-- What `htab_move` does with each chain: it moves the first item only, or it does not end.
use school_projects.Base.{
  ℕ, zero, suc, ◌%◌, ◌<◌, ◌≡◌, ◌≢◌, refl, ap, sym, ◌∙◌, false, Bool-cases, inl, inr, Option, none,
  some, arith, ◌==◌, ==_refl, ==_of_ne, get_elem?, length, set, length-set, get_elem?-set_self,
}
use school_projects.Memory.{Ptr, null, Heap, write, done, exhausted}
use school_projects.HashTable.{Key}
use school_projects.LinkedTable.{htab_hash_function}
use school_projects.LinkedTable.Move.{
  ListItem, Tables, item_at, set_next, slot_of, read_new, write_new, new_index, put_first,
  move_chain,
}

abbrev pub key_of : Option ListItem → Option Key
key_of none = none
key_of (some item) = some item.key

-- An item at an address, from its key.
pub item_of :
    (o : Option ListItem) (k : Key)
    → key_of o ≡ some k
    → (item : ListItem) × (o ≡ some item) × (item.key ≡ k)
item_of none k e = absurd cc
item_of (some item) k e = (item, refl, cc)

pub write-keys :
    (h : Heap ListItem) (tmp : Ptr) (item : ListItem) (next : Ptr)
    → h tmp ≡ some item
    → (a : Ptr) → key_of (write h tmp (some (record item { next = next })) a) ≡ key_of (h a)
write-keys h tmp item next holds a = elim (Bool-cases (a == tmp)) [
  | inl here ↦ let e : a ≡ tmp = ground (arith, here) in rw here (sym (ap key_of (ap h e ∙ holds)))
  | inr there ↦ rw there refl
]

item_at-done :
    (w : Tables) (p : Ptr) (item : ListItem) → w.heap p ≡ some item → item_at p w ≡ done item w
unfolding item_at
item_at-done w p item holds = simp (item_at, holds) refl

-- The state after one round.
abbrev pub moved : Tables → (tmp : Ptr) → (item : ListItem) → (i : ℕ) → (first : Ptr) → Tables
moved w tmp item i first = record w {
  heap = write w.heap tmp (some (record item { next = first }));
  htab = record w.htab { ptr = set w.htab.ptr i tmp };
}

module _ (newsize : ℕ) where
  -- The item at an address belongs into the slot `i`.
  abbrev pub Belongs : Heap ListItem → Ptr → ℕ → Type 0
  Belongs h p i = (k : Key) × (key_of (h p) ≡ some k) × (htab_hash_function k % newsize ≡ i)

  module _ (positive : 0 < newsize) where
    put_first_lem :
        (w : Tables) (tmp : Ptr) (item : ListItem) (i : ℕ) (first : Ptr)
        → w.heap tmp ≡ some item
        → htab_hash_function item.key % newsize ≡ i
        → get_elem? w.htab.ptr i ≡ some first
        → put_first newsize tmp w ≡ done tt (moved w tmp item i first)
    unfolding put_first item_at new_index read_new write_new set_next slot_of
    put_first_lem w tmp item i first holds index at =
        let nonzero : (newsize == 0) ≡ false = ground (arith, positive) in
        elim (Bool-cases (first == null)) [
          | inl empty ↦
              let e : first ≡ null = ground (arith, empty) in
              simp (holds, item_at, nonzero, index, at, slot_of, empty)
                (ap (λ q. done tt (moved w tmp item i q)) (sym e))
          | inr taken ↦ simp (holds, item_at, nonzero, index, at, slot_of, taken) refl
        ]

    moved_self :
        (w : Tables) (tmp : Ptr) (item : ListItem) (i : ℕ) (first : Ptr)
        → item_at tmp (moved w tmp item i first)
          ≡ done (record item { next = first }) (moved w tmp item i first)
    moved_self w tmp item i first =
        item_at-done (moved w tmp item i first) tmp (record item { next = first })
          (rw (==_refl tmp) refl)

    -- An item that comes to a slot which is taken: the loop goes from the one to the other for ever.
    pub move_chain-stuck :
        (fuel : ℕ) (w : Tables) (tmp first : Ptr) (i : ℕ)
        → tmp ≢ null
        → first ≢ null
        → Belongs w.heap tmp i
        → Belongs w.heap first i
        → get_elem? w.htab.ptr i ≡ some first
        → i < length w.htab.ptr
        → move_chain newsize fuel tmp w ≡ exhausted
    unfolding move_chain
    move_chain-stuck zero w tmp first i ne ne' here there at inside = rw (==_of_ne tmp null ne) refl
    move_chain-stuck (suc fuel) w tmp first i ne ne' (k, holds, index) (k', holds', index') at
          inside =
        let (item, e, same) = item_of (w.heap tmp) k holds in
        let step =
          put_first_lem w tmp item i first e (ap (λ l. htab_hash_function l % newsize) same ∙ index)
            at in
        let keys = write-keys w.heap tmp item first e in
        rw (==_of_ne tmp null ne) (
          simp (step, moved_self w tmp item i first)
            (move_chain-stuck fuel (moved w tmp item i first) first tmp i ne' ne
              (k', keys first ∙ holds', index') (k, keys tmp ∙ holds, index)
              (get_elem?-set_self w.htab.ptr i tmp inside)
              (omega (arith, inside, length-set w.htab.ptr i tmp))))

    pub move_chain-null : (fuel : ℕ) (w : Tables) → move_chain newsize fuel null w ≡ done tt w
    unfolding move_chain
    move_chain-null zero w = refl
    move_chain-null (suc fuel) w = refl

    -- An item that comes to a free slot is the only one of its chain that is moved.
    pub move_chain-once :
        (fuel : ℕ) (w : Tables) (tmp : Ptr) (item : ListItem) (i : ℕ)
        → tmp ≢ null
        → w.heap tmp ≡ some item
        → htab_hash_function item.key % newsize ≡ i
        → get_elem? w.htab.ptr i ≡ some null
        → move_chain newsize (suc fuel) tmp w ≡ done tt (moved w tmp item i null)
    unfolding move_chain
    move_chain-once fuel w tmp item i ne e index at = rw (==_of_ne tmp null ne) (
        simp (put_first_lem w tmp item i null e index at, moved_self w tmp item i null)
          (move_chain-null fuel (moved w tmp item i null)))
