-- ===== src/HashTable/Chain.antt =====
-- Keys, and what the loops over one chain do to what it holds.
use school_projects.Base.{
  subst, ◌≡◌, refl, ap, sym, ◌∙◌, true, Bool-cases, inl, inr, none, some, List, [], ◌∷◌, arith,
  if◌then◌else◌,
}
use school_projects.Base.Int.{eq_of_parts}
use school_projects.HashTable.{Key, same_key, Item, data_of, find, update, unlink}

pub same_key_refl : (k : Key) → same_key k k ≡ true
same_key_refl [] = refl
same_key_refl (a ∷ k) = ground (arith, same_key_refl k)

pub same_key-eq : (k l : Key) → same_key k l ≡ true → k ≡ l
same_key-eq [] [] h = refl
same_key-eq [] (b ∷ l) h = cc
same_key-eq (a ∷ k) [] h = cc
same_key-eq (a ∷ k) (b ∷ l) h =
    let head : a ≡ b = eq_of_parts a b (ground arith) in
    let tail : k ≡ l = same_key-eq k l (ground arith) in cc

pub same_key_comm : (k l : Key) → same_key k l ≡ same_key l k
same_key_comm [] [] = refl
same_key_comm [] (b ∷ l) = refl
same_key_comm (a ∷ k) [] = refl
same_key_comm (a ∷ k) (b ∷ l) = ground (arith, same_key_comm k l)

-- Keys that are the same as a third are the same as each other.
pub same_key-join : (k l m : Key) → same_key k l ≡ true → same_key m l ≡ true → same_key k m ≡ true
same_key-join k l m first second =
    let e : k ≡ m = same_key-eq k l first ∙ sym (same_key-eq m l second) in rw e (same_key_refl m)

module _ {D : Type 0} where
  abbrev pub Unique : List (Item D) → Type 0
  Unique [] = Unit
  Unique (tmp ∷ chain) = (find chain tmp.key ≡ none) × Unique chain

  pub find-update :
      (chain : List (Item D)) (k k' : Key) (d : D) (tmp : Item D)
      → find chain k ≡ some tmp
      → data_of (find (update chain k d) k')
        ≡ (if same_key k k' then some d else data_of (find chain k'))
  find-update [] k k' d tmp h = cc
  find-update (t ∷ chain) k k' d tmp h = elim (Bool-cases (same_key t.key k)) [
    | inl same ↦
        let e : same_key t.key k' ≡ same_key k k' =
          ap (λ l. same_key l k') (same_key-eq t.key k same) in
        ground (arith, same, e)
    | inr other ↦
        let later : find chain k ≡ some tmp = ground (arith, other, h) in
        ground (arith, other, find-update chain k k' d tmp later, same_key-join t.key k' k)
  ]

  -- Neither loop makes a key appear.
  find-update-none :
      (chain : List (Item D)) (k l : Key) (d : D)
      → find chain l ≡ none
      → find (update chain k d) l ≡ none
  find-update-none [] k l d h = refl
  find-update-none (t ∷ chain) k l d h = ground (arith, find-update-none chain k l d)

  find-unlink-none :
      (chain : List (Item D)) (k l : Key) → find chain l ≡ none → find (unlink chain k).0 l ≡ none
  find-unlink-none [] k l h = refl
  find-unlink-none (t ∷ chain) k l h = ground (arith, find-unlink-none chain k l)

  -- Without the item, its key is not found, if no other item has it.
  pub find-unlink :
      (chain : List (Item D)) (k k' : Key)
      → Unique chain
      → data_of (find (unlink chain k).0 k')
        ≡ (if same_key k k' then none else data_of (find chain k'))
  find-unlink [] k k' h = ground arith
  find-unlink (t ∷ chain) k k' (alone, unique) = elim (Bool-cases (same_key t.key k)) [
    | inl same ↦
        let e : same_key t.key k' ≡ same_key k k' =
          ap (λ l. same_key l k') (same_key-eq t.key k same) in
        let gone : same_key k k' ≡ true → find chain k' ≡ none =
          λ h. subst (λ l. find chain l ≡ none) (same_key-eq t.key k' (e ∙ h)) alone in
        ground (arith, same, e, gone)
    | inr other ↦ ground (arith, other, find-unlink chain k k' unique, same_key-join t.key k' k)
  ]

  pub Unique-update :
      (chain : List (Item D)) (k : Key) (d : D) → Unique chain → Unique (update chain k d)
  Unique-update [] k d h = tt
  Unique-update (t ∷ chain) k d (alone, unique) =
      ground (arith, Unique-update chain k d unique, find-update-none chain k t.key d)

  pub Unique-unlink : (chain : List (Item D)) (k : Key) → Unique chain → Unique (unlink chain k).0
  Unique-unlink [] k h = tt
  Unique-unlink (t ∷ chain) k (alone, unique) =
      ground (arith, Unique-unlink chain k unique, find-unlink-none chain k t.key)
