-- ===== src/HashTable/Tests.antt =====
-- The theorems on the hash table, applied to a table of three slots.
use school_projects.Base.{
  ℕ, zero, suc, ◌≡◌, refl, true, none, some, [], ◌∷◌, ◌++◌, arith, if◌then◌else◌,
}
use school_projects.Base.Int.{pos}
use school_projects.Memory.{done}
use school_projects.Memory.Returns.{Returns}
use school_projects.HashTable.{
  Key, same_key, HashWorld, ht_init, ht_clear_all, ht_insert, ht_delete,
}
use school_projects.HashTable.Clear.{blocks, ht_clear_all-ht_init}
use school_projects.HashTable.Chain.{Unique}
use school_projects.HashTable.Lookup.{slot, lookup, IsTable, ht_insert-stores, ht_delete-removes}

-- The key "a" has the hash code 98, which leaves 2 of 3.
abbrev key_a : Key
key_a = pos 97 ∷ []

abbrev key_b : Key
key_b = pos 98 ∷ []

abbrev table : HashWorld ℕ
table = record {
  slots = [] ∷ [] ∷ (record { address = 1; key_address = 2; key = key_a; data_ = 10 } ∷ []) ∷ [];
  freed = [];
}

table-Unique : (i : ℕ) → Unique (slot table.slots i)
table-Unique zero = tt
table-Unique (suc zero) = tt
table-Unique (suc (suc zero)) = (refl, tt)
table-Unique (suc (suc (suc i))) = tt

table-IsTable : IsTable 3 table
table-IsTable = record { positive = ground arith; allocated = ground arith; unique = table-Unique }

ht_insert-stores_example :
    Returns
      (λ _ w'.
        IsTable 3 w'
        × ((k' : Key)
            → lookup 3 w'.slots k'
              ≡ (if same_key key_b k' then some 20 else lookup 3 table.slots k')))
      (ht_insert 3 5 6 true (some key_b) 20 table)
ht_insert-stores_example =
    ht_insert-stores 3 table table-IsTable 5 6 key_b 20 (ground arith) (ground arith) tt

ht_delete-removes_example :
    Returns
      (λ _ w'.
        IsTable 3 w'
        × ((k' : Key)
            → lookup 3 w'.slots k' ≡ (if same_key key_a k' then none else lookup 3 table.slots k')))
      (ht_delete 3 true (some key_a) table)
ht_delete-removes_example = ht_delete-removes 3 table table-IsTable key_a tt

ht_clear_all-ht_init_example :
    (w' : HashWorld ℕ) × (ht_clear_all 3 true table ≡ done tt w')
    × (ht_init 3 true table ≡ done tt (record { slots = w'.slots; freed = [] }))
    × (w'.freed ≡ [] ++ blocks table.slots)
    × (blocks w'.slots ≡ [])
ht_clear_all-ht_init_example = ht_clear_all-ht_init 3 table refl
