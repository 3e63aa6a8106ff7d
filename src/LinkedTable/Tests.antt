-- ===== src/LinkedTable/Tests.antt =====
-- The theorems on the counting table, applied to a table of two slots.
use school_projects.LinkedTable.Remove.{Alone, IsSized, is_some, blocks, chain_of, htab_remove_lem}
use school_projects.LinkedTable.Move.{ListItem, Tables, nulls, htab_move}
use school_projects.LinkedTable.Move.Heads.{place_heads}
use school_projects.LinkedTable.Move.Loop.{Moved, htab_move_lem}
use school_projects.Base.{
  ℕ, ◌==◌, ◌||◌, zero, none, ◌++◌, suc, ◌≡◌, refl, true, some, [], ◌∷◌, arith, if◌then◌else◌,
}
use school_projects.Base.Int.{pos}
use school_projects.Memory.Returns.{Returns}
use school_projects.HashTable.{Key, same_key}
use school_projects.Memory.{Heap, undefined}
use school_projects.LinkedTable.Clear.{htab_clear-undefined}
use school_projects.HashTable.Lookup.{slot}
use school_projects.LinkedTable.{
  htab_hash_function, search, htab_remove, htab_clear, Htab, ulong, htab_lookup_add,
}
use school_projects.LinkedTable.Count.{count, IsTable, htab_lookup_add-counts}

abbrev word : Key
word = pos 97 ∷ pos 98 ∷ []

-- The word has the hash code 97 * 65599 + 98, which is odd.
abbrev table : Htab
table = record {
  size = 1;
  arr_size = 2;
  ptr = [] ∷ (record { address = 1; key_address = 2; key = word; data_ = 3 } ∷ []) ∷ [];
  freed = [];
}

abbrev even_word : Key
even_word = pos 98 ∷ []

abbrev chained : Heap ListItem
chained p =
    if p == 1
    then some (record { key = word; data_ = 3; next = 2 })
    else if (p == 2) || (p == 3)
    then some (record { key = even_word; data_ = 1; next = 0 })
    else none

slot-Alone : (i : ℕ) → Alone (slot table.ptr i)
slot-Alone zero = tt
slot-Alone (suc zero) = (refl, tt)
slot-Alone (suc (suc i)) = tt

table-IsTable : IsTable table
table-IsTable = record { positive = ground arith; allocated = refl }

htab_lookup_add-counts_example :
    Returns
      (λ _ t'.
        IsTable t'
        × ((k' : Key)
            → count t' k'
              ≡ (if same_key word k' then ulong (suc (count table word)) else count table k')))
      (htab_lookup_add 5 6 true (some word) table)
htab_lookup_add-counts_example =
    htab_lookup_add-counts table table-IsTable 5 6 word (ground arith) (ground arith)

htab_clear-undefined_example : htab_clear true table ≡ undefined
htab_clear-undefined_example =
    htab_clear-undefined table 1 (record { address = 1; key_address = 2; key = word; data_ = 3 }) []
      table-IsTable (ground arith) refl

table-IsSized : IsSized table
table-IsSized = record {
  table = table-IsTable;
  alone = slot-Alone;
  size = refl;
  fits = omega arith;
}

htab_remove_lem_example :
    Returns
      (λ found t'.
        IsSized t'
        × (found ≡ is_some (search (chain_of table table-IsSized word) word))
        × (t'.freed ≡ [] ++ blocks (search (chain_of table table-IsSized word) word))
        × ((k' : Key) → count t' k' ≡ (if same_key word k' then 0 else count table k')))
      (htab_remove true (some word) table)
htab_remove_lem_example = htab_remove_lem table table-IsSized word

-- Two words in one chain, with even and odd hash codes, and one in the other.
abbrev two_chains : Tables
two_chains = record {
  heap = chained;
  t2 = record { size = 3; arr_size = 2; ptr = 1 ∷ 3 ∷ [] };
  htab = record { size = 0; arr_size = 0; ptr = [] };
}

-- The first items belong into different slots of two, and into the same one of one slot.
heads_of_two : place_heads 2 chained (1 ∷ 3 ∷ []) (nulls 2) ≡ some (3 ∷ 1 ∷ [])
unfolding htab_hash_function
heads_of_two = refl

heads_of_one : place_heads 1 chained (1 ∷ 3 ∷ []) (nulls 1) ≡ none
unfolding htab_hash_function
heads_of_one = refl

htab_move_lem_example :
    Moved 2
      (omega arith)
      two_chains
      9
      (place_heads 2 chained (1 ∷ 3 ∷ []) (nulls 2))
      (htab_move 2 5 true 9 two_chains)
htab_move_lem_example =
    htab_move_lem 2 (omega arith) two_chains 4 9 (omega arith) refl
      ((λ _. (word, refl)), ((λ _. (even_word, refl)), tt))
