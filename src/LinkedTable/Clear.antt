-- ===== src/LinkedTable/Clear.antt =====
-- `htab_clear`.
use school_projects.Base.{
  ℕ, zero, suc, ◌+◌, ◌<◌, ◌≤◌, ◌≡◌, ◌⊎◌, sym, ap, ◌∙◌, refl, true, false, Bool-cases, inl, inr,
  List, [], ◌∷◌, ◌++◌, arith, ◌==◌, length, set, length-set,
}
use school_projects.Memory.{Ptr, done, undefined}
use school_projects.HashTable.{Item}
use school_projects.HashTable.Lookup.{slot, slot-get_elem?, slot-set}
use school_projects.LinkedTable.{
  Htab, is_freed, use_item, read_ptr, write_ptr, clear_chain, clear_loop, htab_bucket_count,
  htab_clear,
}
use school_projects.LinkedTable.Count.{IsTable}

is_freed-append : (a k : Ptr) (ps : List Ptr) → is_freed a (ps ++ (k ∷ a ∷ [])) ≡ true
is_freed-append a k [] = ground arith
is_freed-append a k (p ∷ ps) = ground (arith, is_freed-append a k ps)

clear_chain-undefined :
    (t : Htab) (tmp : Item ℕ) (chain : List (Item ℕ)) → clear_chain (tmp ∷ chain) t ≡ undefined
unfolding clear_chain use_item
clear_chain-undefined t tmp chain = elim (Bool-cases (is_freed tmp.address t.freed)) [
  | inl before ↦ simp before refl
  | inr not_before ↦ simp (not_before, is_freed-append tmp.address tmp.key_address t.freed) refl
]

List-cases : (c : List (Item ℕ)) → (c ≡ []) ⊎ ((u : Item ℕ) × (us : List (Item ℕ)) × (c ≡ u ∷ us))
List-cases [] = inl refl
List-cases (u ∷ us) = inr (u, us, refl)

module _ (t : Htab) (j : ℕ) (inside : j < length t.ptr) where
  read_ptr-at : read_ptr j t ≡ done (slot t.ptr j) t
  unfolding read_ptr
  read_ptr-at = let there = slot-get_elem? t.ptr j inside in ground (arith, there)

  write_ptr-at : write_ptr j [] t ≡ done tt (record t { ptr = set t.ptr j [] })
  unfolding write_ptr
  write_ptr-at = let there = slot-get_elem? t.ptr j inside in ground (arith, there)

clear_loop-undefined :
    (k i j : ℕ) (t : Htab) (tmp : Item ℕ) (chain : List (Item ℕ))
    → j ≤ i
    → i < j + k
    → j + k ≤ length t.ptr
    → slot t.ptr i ≡ tmp ∷ chain
    → clear_loop k j t ≡ undefined
unfolding clear_loop clear_chain
clear_loop-undefined zero i j t tmp chain low high fits holds = absurd (omega arith)
clear_loop-undefined (suc k) i j t tmp chain low high fits holds =
    let inside : j < length t.ptr = omega (arith, fits) in
    elim (List-cases (slot t.ptr j)) [
      | inl empty ↦
          let apart : (j == i) ≡ false = elim (Bool-cases (j == i)) [
            | inl same ↦
                let e : i ≡ j = ground (arith, same) in
                let wrong : [] ≡ tmp ∷ chain = sym empty ∙ sym (ap (slot t.ptr) e) ∙ holds in cc
            | inr other ↦ other
          ] in
          simp (read_ptr-at t j inside, empty)
            (simp (write_ptr-at t j inside) (
              clear_loop-undefined k i (suc j) (record t { ptr = set t.ptr j [] }) tmp chain
                (ground (arith, apart)) (omega arith) (omega (arith, fits, length-set t.ptr j []))
                (simp (slot-set t.ptr j i [] inside, apart) holds)))
      | inr (u, us, e) ↦ simp (read_ptr-at t j inside, e) (simp (clear_chain-undefined t u us) refl)
    ]

-- In a table with a slot for each index, and with an item in some slot, `htab_clear` reads an item after
-- it has freed it.
pub htab_clear-undefined :
    (t : Htab) (i : ℕ) (tmp : Item ℕ) (chain : List (Item ℕ))
    → IsTable t
    → i < t.arr_size
    → slot t.ptr i ≡ tmp ∷ chain
    → htab_clear true t ≡ undefined
unfolding htab_clear htab_bucket_count
htab_clear-undefined t i tmp chain is inside holds =
    let e =
      clear_loop-undefined t.arr_size i 0 t tmp chain (omega arith) (omega (arith, inside))
        (omega (arith, is.allocated)) holds in
    simp e refl
