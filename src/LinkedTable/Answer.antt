-- ===== src/LinkedTable/Answer.antt =====
-- The address that `htab_lookup_add` returns.
use school_projects.Base.{
  ℕ, suc, zero, ◌≡◌, ◌≢◌, true, Bool-cases, Option-cases, inl, inr, some, List, [], ◌∷◌, ◌++◌,
  arith, ==_of_ne, set,
}
use school_projects.Memory.{Ptr, null}
use school_projects.Memory.Returns.{Returns}
use school_projects.HashTable.{Key, Item, same_key}
use school_projects.HashTable.Lookup.{slot}
use school_projects.LinkedTable.{Htab, htab_lookup_add, bump, search}
use school_projects.LinkedTable.Count.{IsTable, place, index_of-done, read_ptr-done, write_ptr-done}

-- No item is at NULL.
abbrev pub Addressed : List (Item ℕ) → Type 0
Addressed [] = Unit
Addressed (tmp ∷ chain) = (tmp.address ≢ null) × Addressed chain

abbrev pub Held : List (List (Item ℕ)) → Type 0
Held [] = Unit
Held (chain ∷ chains) = Addressed chain × Held chains

search-Addressed :
    (chain : List (Item ℕ)) (key : Key) (tmp : Item ℕ)
    → Addressed chain
    → search chain key ≡ some tmp
    → tmp.address ≢ null
search-Addressed [] key tmp h e = absurd cc
search-Addressed (u ∷ chain) key tmp h e = ground (arith, h, e, search-Addressed chain key tmp)

bump-Addressed : (chain : List (Item ℕ)) (key : Key) → Addressed chain → Addressed (bump chain key)
bump-Addressed [] key h = tt
bump-Addressed (u ∷ chain) key h = elim (Bool-cases (same_key key u.key)) [
  | inl same ↦ rw same h
  | inr other ↦ rw other (h.0, bump-Addressed chain key h.1)
]

Addressed-append :
    (chain : List (Item ℕ)) (new : Item ℕ)
    → Addressed chain
    → new.address ≢ null
    → Addressed (chain ++ (new ∷ []))
Addressed-append [] new h ne = (ne, tt)
Addressed-append (u ∷ chain) new h ne = (h.0, Addressed-append chain new h.1 ne)

Held-set :
    (ps : List (List (Item ℕ))) (i : ℕ) (c : List (Item ℕ))
    → Held ps
    → Addressed c
    → Held (set ps i c)
Held-set [] i c h k = tt
Held-set (p ∷ ps) zero c h k = (k, h.1)
Held-set (p ∷ ps) (suc i) c h k = (h.0, Held-set ps i c h.1 k)

slot-Addressed : (ps : List (List (Item ℕ))) (i : ℕ) → Held ps → Addressed (slot ps i)
slot-Addressed [] i h = tt
slot-Addressed (p ∷ ps) zero h = h.0
slot-Addressed (p ∷ ps) (suc i) h = slot-Addressed ps i h.1

module _ (t : Htab) (is : IsTable t) (held : Held t.ptr) where
  -- If `malloc` succeeds and no item is at NULL, `htab_lookup_add` does not return NULL, and puts none there.
  pub htab_lookup_add-answers :
      (p q : Ptr) (key : Key)
      → p ≢ null
      → q ≢ null
      → Returns (λ r t'. (r ≢ null) × Held t'.ptr) (htab_lookup_add p q true (some key) t)
  unfolding htab_lookup_add
  htab_lookup_add-answers p q key pn qn =
      let old = slot t.ptr (place t is key) in
      let h = slot-Addressed t.ptr (place t is key) held in
      let item : Item ℕ = record { address = p; key_address = q; key = key; data_ = 1 } in
      elim (Option-cases (search old key)) [
        | inl free ↦
            simp (index_of-done t is key, read_ptr-done t is key)
              (simp
                (
                  free,
                  ==_of_ne p null pn,
                  ==_of_ne q null qn,
                  write_ptr-done t is key (old ++ (item ∷ [])),
                )
                (
                  pn,
                  Held-set t.ptr (place t is key) (old ++ (item ∷ [])) held
                      (Addressed-append old item h pn),
                ))
        | inr (tmp, found) ↦
            simp (index_of-done t is key, read_ptr-done t is key)
              (simp (found, write_ptr-done t is key (bump old key))
                (
                  search-Addressed old key tmp h found,
                  Held-set t.ptr (place t is key) (bump old key) held (bump-Addressed old key h),
                ))
      ]
