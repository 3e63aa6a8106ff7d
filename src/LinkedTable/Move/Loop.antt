-- ===== src/LinkedTable/Move/Loop.antt =====
-- The loop of `htab_move` over the slots of the old table, and the whole call.
use school_projects.Base.{
  ℕ, zero, suc, ◌+◌, ◌<◌, ◌≡◌, ◌≢◌, refl, ap, sym, subst, ◌∙◌, true, Option-cases, inl, inr, Option,
  none, some, List, [], ◌∷◌, ◌++◌, arith, ==_of_ne, get_elem?, length, set, append-nil,
}
use school_projects.Memory.{Ptr, null, Heap, Outcome, done, exhausted}
use school_projects.Memory.Returns.{Returns}
use school_projects.LinkedTable.Move.{
  ListItem, Slots, Tables, move_chain, move_loop, nulls, htab_move, read_old, clear_old, slot_of,
}
use school_projects.LinkedTable.Move.Heads.{
  place_head, place_heads, Live, Ends, with_ptr, Midway, Placed, place_head_lem, after,
}

module _ (newsize : ℕ) (h : Heap ListItem) (positive : 0 < newsize) where
  -- What the outer loop does, up to the slot `n` of `t2`.
  abbrev Looped : Tables → (n : ℕ) → Option (List Ptr) → Outcome Tables (Unit {0}) → Type 0
  Looped w n none r = r ≡ exhausted
  Looped w n (some slots) r =
      (w' : Tables) × (r ≡ done tt w')
      × Midway newsize h w'
      × (w'.htab ≡ record w.htab { ptr = slots })
      × (w'.t2 ≡ record w.t2 { ptr = nulls n })

  -- The state in between is forgotten.
  Looped-before :
      (w next : Tables) (n : ℕ) (o : Option (List Ptr)) (r : Outcome Tables (Unit {0}))
      → ((l : List Ptr) → Path Slots (record next.htab { ptr = l }) (record w.htab { ptr = l }))
      → ((l : List Ptr) → Path Slots (record next.t2 { ptr = l }) (record w.t2 { ptr = l }))
      → Looped next n o r
      → Looped w n o r
  Looped-before w next n none r htab t2 e = e
  Looped-before w next n (some slots) r htab t2 (w', ran, m, new, old) =
      (w', ran, m, new ∙ htab slots, old ∙ t2 (nulls n))

  get_elem?-nulls : (i : ℕ) (p : Ptr) (ps : List Ptr) → get_elem? (nulls i ++ p ∷ ps) i ≡ some p
  get_elem?-nulls zero p ps = refl
  get_elem?-nulls (suc i) p ps = get_elem?-nulls i p ps

  set-nulls :
      (i : ℕ) (p : Ptr) (ps : List Ptr) → set (nulls i ++ p ∷ ps) i null ≡ nulls (suc i) ++ ps
  set-nulls zero p ps = refl
  set-nulls (suc i) p ps = ap (λ r. null ∷ r) (set-nulls i p ps)

  read_old-at :
      (w : Tables) (i : ℕ) (p : Ptr) → get_elem? w.t2.ptr i ≡ some p → read_old i w ≡ done p w
  unfolding read_old
  read_old-at w i p at = simp (slot_of, at) refl

  clear_old-at :
      (w : Tables) (i : ℕ) (p : Ptr)
      → get_elem? w.t2.ptr i ≡ some p
      → clear_old i w ≡ done tt (record w { t2 = record w.t2 { ptr = set w.t2.ptr i null } })
  unfolding clear_old
  clear_old-at w i p at = simp (read_old-at w i p at) refl

  -- A round of the outer loop that puts an item into its slot.
  one_round :
      (fuel k i : ℕ) (p : Ptr) (w w' : Tables)
      → get_elem? w.t2.ptr i ≡ some p
      → move_chain newsize (suc fuel) p w ≡ done tt w'
      → w'.t2 ≡ w.t2
      → move_loop newsize (suc fuel) (suc k) i w
        ≡ move_loop newsize
            (suc fuel)
            k
            (suc i)
            (record w' { t2 = record w.t2 { ptr = set w.t2.ptr i null } })
  unfolding move_loop
  one_round fuel k i p w w' at ran same =
      let at' : get_elem? w'.t2.ptr i ≡ some p = ap (λ t. get_elem? t.ptr i) same ∙ at in
      simp (read_old-at w i p at, ran, clear_old-at w' i p at')
        (ap
          (λ t.
            move_loop newsize (suc fuel) k (suc i)
              (record w' { t2 = record t { ptr = set t.ptr i null } }))
          same)

  stuck_round :
      (fuel k i : ℕ) (p : Ptr) (w : Tables)
      → get_elem? w.t2.ptr i ≡ some p
      → move_chain newsize (suc fuel) p w ≡ exhausted
      → move_loop newsize (suc fuel) (suc k) i w ≡ exhausted
  unfolding move_loop
  stuck_round fuel k i p w at ran = simp (read_old-at w i p at, ran) refl

  move_loop_lem :
      (fuel i : ℕ) (ps : List Ptr) (w : Tables)
      → w.t2.ptr ≡ nulls i ++ ps
      → Live h ps
      → Midway newsize h w
      → Looped w
          (i + length ps)
          (place_heads newsize h ps w.htab.ptr)
          (move_loop newsize (suc fuel) (length ps) i w)
  unfolding move_loop
  move_loop_lem fuel i [] w at live m = (
    w,
    refl,
    m,
    refl,
    ap (λ l. record w.t2 { ptr = l }) (at ∙ append-nil (nulls i) ∙ ap nulls (omega arith)),
  )
  move_loop_lem fuel i (p ∷ ps) w at (live, lives) m =
      let there : get_elem? w.t2.ptr i ≡ some p =
        ap (λ l. get_elem? l i) at ∙ get_elem?-nulls i p ps in
      let placed = place_head_lem newsize h positive fuel w p live m in
      elim (Option-cases (place_head newsize h p w.htab.ptr)) [
        | inl full ↦
            let ran : move_chain newsize (suc fuel) p w ≡ exhausted =
              subst (λ o. Placed newsize h positive w o (move_chain newsize (suc fuel) p w)) full
                placed in
            subst
              (λ o.
                Looped w (i + length (p ∷ ps)) o
                  (move_loop newsize (suc fuel) (suc (length ps)) i w))
              (sym (ap (λ o. after o (place_heads newsize h ps)) full))
              (stuck_round fuel (length ps) i p w there ran)
        | inr (slots, free) ↦
            let (w', ran, m', htab, t2) : Placed newsize h positive w (some slots)
                (move_chain newsize (suc fuel) p w) =
              subst (λ o. Placed newsize h positive w o (move_chain newsize (suc fuel) p w)) free
                placed in
            let next = record w' { t2 = record w.t2 { ptr = set w.t2.ptr i null } } in
            let later =
              move_loop_lem fuel (suc i) ps next (ap (λ l. set l i null) at ∙ set-nulls i p ps)
                lives (record { keys = m'.keys; width = m'.width; slots = m'.slots }) in
            let whole : Looped w (suc i + length ps) (place_heads newsize h ps slots)
                (move_loop newsize (suc fuel) (length ps) (suc i) next) =
              subst
                (λ l.
                  Looped w (suc i + length ps) (place_heads newsize h ps l)
                    (move_loop newsize (suc fuel) (length ps) (suc i) next))
                (ap (λ t. t.ptr) htab)
                (Looped-before w next (suc i + length ps) (place_heads newsize h ps w'.htab.ptr)
                  (move_loop newsize (suc fuel) (length ps) (suc i) next)
                  (λ l. ap (λ t. with_ptr t l) htab) (λ l. refl) later) in
            subst
              (λ o.
                Looped w (i + suc (length ps)) o
                  (move_loop newsize (suc fuel) (suc (length ps)) i w))
              (sym (ap (λ o. after o (place_heads newsize h ps)) free))
              (subst (λ r. Looped w (i + suc (length ps)) (place_heads newsize h ps slots) r)
                (sym (one_round fuel (length ps) i p w w' there ran t2))
                (subst
                  (λ n.
                    Looped w n (place_heads newsize h ps slots)
                      (move_loop newsize (suc fuel) (length ps) (suc i) next))
                  (omega arith) whole))
      ]

abbrev no_items : Slots → Slots
no_items t = record t { size = 0 }

module _ (newsize : ℕ) (positive : 0 < newsize) (w : Tables) where
  -- The new table has the items that `place_heads` puts into its slots, and no others; without them the call
  -- never ends.
  abbrev pub Moved : Ptr → Option (List Ptr) → Outcome Tables Ptr → Type 0
  Moved p none r = r ≡ exhausted
  Moved p (some slots) r =
      Returns
        (λ answer w'.
          (answer ≡ p)
          × (w'.htab ≡ record { size = w.t2.size; arr_size = newsize; ptr = slots })
          × (w'.t2 ≡ record { size = 0; arr_size = w.t2.arr_size; ptr = nulls w.t2.arr_size })
          × ((j : ℕ) (q : Ptr) → get_elem? slots j ≡ some q → q ≢ null → Ends w'.heap q))
        r

  abbrev begun : Tables
  begun = record w { htab = record { size = w.t2.size; arr_size = newsize; ptr = nulls newsize } }

  length-nulls : (k : ℕ) → length (nulls k) ≡ k
  length-nulls zero = refl
  length-nulls (suc k) = ap suc (length-nulls k)

  nulls_empty : (k j : ℕ) (q : Ptr) → get_elem? (nulls k) j ≡ some q → q ≡ null
  nulls_empty zero j q e = absurd cc
  nulls_empty (suc k) zero q e = cc
  nulls_empty (suc k) (suc j) q e = nulls_empty k j q e

  begun-Midway : Midway newsize w.heap begun
  begun-Midway = record {
    keys = λ a. refl;
    width = length-nulls newsize;
    slots = λ j q at ne. absurd (ne (nulls_empty newsize j q at));
  }

  htab_move-Moved :
      (fuel : ℕ) (p : Ptr) (o : Option (List Ptr)) (r : Outcome Tables (Unit {0}))
      → p ≢ null
      → move_loop newsize (suc fuel) w.t2.arr_size 0 begun ≡ r
      → Looped newsize w.heap positive begun w.t2.arr_size o r
      → Moved p o (htab_move newsize (suc fuel) true p w)
  unfolding htab_move
  htab_move-Moved fuel p none r ne ran e = simp (==_of_ne p null ne, ran, e) refl
  htab_move-Moved fuel p (some slots) r ne ran (w', e, m, htab, t2) =
      simp (==_of_ne p null ne, ran, e)
        (
          refl,
          htab,
          ap no_items t2,
          λ j q at far. (m.slots j q (ap (λ t. get_elem? t.ptr j) htab ∙ at) far).1,
        )

  -- `htab_move` of a table with a slot for each index, to a positive size and if `malloc` succeeds: it
  -- moves the first item of each chain, and leaves the others out of the new table, which still takes the
  -- old size; if two of these items belong into one slot, it does not end. In the end the old table
  -- is empty.
  pub htab_move_lem :
      (fuel : ℕ) (p : Ptr)
      → p ≢ null
      → length w.t2.ptr ≡ w.t2.arr_size
      → Live w.heap w.t2.ptr
      → Moved p
          (place_heads newsize w.heap w.t2.ptr (nulls newsize))
          (htab_move newsize (suc fuel) true p w)
  htab_move_lem fuel p ne width live =
      let heads = place_heads newsize w.heap w.t2.ptr (nulls newsize) in
      let ran =
        move_loop_lem newsize w.heap positive fuel 0 w.t2.ptr begun refl live begun-Midway in
      let same : 0 + length w.t2.ptr ≡ length w.t2.ptr = omega arith in
      htab_move-Moved fuel p heads (move_loop newsize (suc fuel) w.t2.arr_size 0 begun) ne refl (
        subst
          (λ n.
            Looped newsize w.heap positive begun n heads (move_loop newsize (suc fuel) n 0 begun))
          width
          (subst
            (λ n.
              Looped newsize w.heap positive begun n heads
                (move_loop newsize (suc fuel) (length w.t2.ptr) 0 begun))
            same ran))
