-- ===== src/Bus/Resources/Left.antt =====
-- What is left of the resources of proj2.c when it has cleaned up.
use school_projects.Base.{
  ℕ, ◌≡◌, ◌≢◌, ◌⊎◌, refl, sym, ap, subst, ◌∙◌, arith, Bool, true, false, ◌||◌, ◌==◌, Bool-cases,
  Option-cases, inl, inr, Option, none, some, List, [], ◌∷◌, ◌++◌, append_assoc, if◌then◌else◌,
}
use school_projects.Bus.Resources.{
  Semaphore, mutex, mutex2, bus_arrived, all_boarded, can_finish, Segment, of_waiting, of_counter,
  of_transported, of_rid_counter, Effect, made_semaphore, made_segment, closed, unlinked, removed,
  Attached, Setup, ready, stopped, crashed, clean_resources, set_resources, semaphore_effect,
  semaphore_effects, segment_effects, all_usable, is_error, usable,
}

abbrev same_semaphore : Semaphore → Semaphore → Bool
same_semaphore mutex mutex = true
same_semaphore mutex2 mutex2 = true
same_semaphore bus_arrived bus_arrived = true
same_semaphore all_boarded all_boarded = true
same_semaphore can_finish can_finish = true
same_semaphore _ _ = false

abbrev unlinked_in : Semaphore → List Effect → Bool
unlinked_in s [] = false
unlinked_in s (unlinked s' ∷ es) = same_semaphore s s' || unlinked_in s es
unlinked_in s (_ ∷ es) = unlinked_in s es

abbrev removed_in : ℕ → List Effect → Bool
removed_in i [] = false
removed_in i (removed (some j) ∷ es) = (i == j) || removed_in i es
removed_in i (_ ∷ es) = removed_in i es

-- The semaphores and the segments that are made and not removed later.
abbrev pub semaphores_left : List Effect → List Semaphore
semaphores_left [] = []
semaphores_left (made_semaphore s ∷ es) =
    if unlinked_in s es then semaphores_left es else s ∷ semaphores_left es
semaphores_left (_ ∷ es) = semaphores_left es

abbrev pub segments_left : List Effect → List ℕ
segments_left [] = []
segments_left (made_segment i ∷ es) =
    if removed_in i es then segments_left es else i ∷ segments_left es
segments_left (_ ∷ es) = segments_left es

unlinked_in-append :
    (s : Semaphore) (xs ys : List Effect)
    → unlinked_in s ys ≡ true
    → unlinked_in s (xs ++ ys) ≡ true
unlinked_in-append s [] ys h = h
unlinked_in-append s (unlinked s' ∷ xs) ys h = ground (arith, unlinked_in-append s xs ys h)
unlinked_in-append s (made_semaphore s' ∷ xs) ys h = unlinked_in-append s xs ys h
unlinked_in-append s (made_segment i ∷ xs) ys h = unlinked_in-append s xs ys h
unlinked_in-append s (closed s' ∷ xs) ys h = unlinked_in-append s xs ys h
unlinked_in-append s (removed i ∷ xs) ys h = unlinked_in-append s xs ys h

-- Before effects that unlink every semaphore, none is left.
semaphores_left-append :
    (xs ys : List Effect)
    → ((s : Semaphore) → unlinked_in s ys ≡ true)
    → semaphores_left ys ≡ []
    → semaphores_left (xs ++ ys) ≡ []
semaphores_left-append [] ys all h = h
semaphores_left-append (unlinked s' ∷ xs) ys all h = semaphores_left-append xs ys all h
semaphores_left-append (made_semaphore s ∷ xs) ys all h =
    rw (unlinked_in-append s xs ys (all s)) (semaphores_left-append xs ys all h)
semaphores_left-append (made_segment i ∷ xs) ys all h = semaphores_left-append xs ys all h
semaphores_left-append (closed s' ∷ xs) ys all h = semaphores_left-append xs ys all h
semaphores_left-append (removed i ∷ xs) ys all h = semaphores_left-append xs ys all h

-- Semaphores do not count as segments.
segments_left-semaphore :
    (s : Semaphore) (b : Bool) (xs ys : List Effect)
    → segments_left ((semaphore_effect s b ++ xs) ++ ys) ≡ segments_left (xs ++ ys)
segments_left-semaphore s true xs ys = refl
segments_left-semaphore s false xs ys = refl

segments_left-last :
    (s : Semaphore) (b : Bool) (ys : List Effect)
    → segments_left (semaphore_effect s b ++ ys) ≡ segments_left ys
segments_left-last s true ys = refl
segments_left-last s false ys = refl

abbrev Other : Segment → Type 0
Other of_counter = ⊥
Other _ = Unit

different : (s : Segment) → of_counter ≡ s → Other s → ⊥
different s e o = subst (λ q. Other q → ⊥) e (λ x. x) o

module _ (opens : Bool) (sem_open : Semaphore → Bool) (shmget : Segment → Option ℕ)
    (shmat : Option ℕ → Attached) (shmctl : (call : ℕ) → Option ℕ → Bool) where
  abbrev cleaned : List Effect
  cleaned = (clean_resources true shmctl shmget).1

  unlinked_in-cleaned : (s : Semaphore) → unlinked_in s cleaned ≡ true
  unfolding clean_resources
  unlinked_in-cleaned mutex = refl
  unlinked_in-cleaned mutex2 = refl
  unlinked_in-cleaned bus_arrived = refl
  unlinked_in-cleaned all_boarded = refl
  unlinked_in-cleaned can_finish = refl

  semaphores_left-cleaned : (made : List Effect) → semaphores_left (made ++ cleaned) ≡ []
  unfolding clean_resources
  semaphores_left-cleaned made = semaphores_left-append made cleaned unlinked_in-cleaned refl

  segments_left-cleaned :
      (w c t r : ℕ)
      → shmget of_waiting ≡ some w
      → shmget of_counter ≡ some c
      → shmget of_transported ≡ some t
      → shmget of_rid_counter ≡ some r
      → c ≢ w
      → c ≢ t
      → c ≢ r
      → segments_left (made_segment w ∷ made_segment c ∷ made_segment t ∷ made_segment r ∷ cleaned)
        ≡ c ∷ []
  unfolding clean_resources
  segments_left-cleaned w c t r is_w is_c is_t is_r a b d =
      ground (arith, is_w, is_c, is_t, is_r, a, b, d)

  segments_left-semaphores :
      (ys : List Effect)
      → segments_left (semaphore_effects opens sem_open shmget shmat true shmctl ++ ys)
        ≡ segments_left ys
  segments_left-semaphores ys =
      let last = semaphore_effect can_finish (sem_open can_finish) in
      let fourth = semaphore_effect all_boarded (sem_open all_boarded) ++ last in
      let third = semaphore_effect bus_arrived (sem_open bus_arrived) ++ fourth in
      let second = semaphore_effect mutex2 (sem_open mutex2) ++ third in
      segments_left-semaphore mutex (sem_open mutex) second ys
      ∙ segments_left-semaphore mutex2 (sem_open mutex2) third ys
      ∙ segments_left-semaphore bus_arrived (sem_open bus_arrived) fourth ys
      ∙ segments_left-semaphore all_boarded (sem_open all_boarded) last ys
      ∙ segments_left-last can_finish (sem_open can_finish) ys

  abbrev made : List Effect
  made =
      semaphore_effects opens sem_open shmget shmat true shmctl
      ++ segment_effects opens sem_open shmget shmat true shmctl

  -- All semaphores are removed, and of the segments only that of `counter` is left.
  abbrev pub OnlyCounterLeft : List Effect → Type 0
  OnlyCounterLeft es =
      (semaphores_left es ≡ [])
      × ((c : ℕ) × (shmget of_counter ≡ some c) × (segments_left es ≡ c ∷ []))

  -- How the program ends after each outcome of `set_resources`.
  abbrev pub Leaves : Setup → Type 0
  Leaves (ready es) = OnlyCounterLeft (es ++ cleaned)
  Leaves (stopped es) = ((opens ≡ false) × (es ≡ [])) ⊎ OnlyCounterLeft es
  Leaves (crashed es) = es ≡ made

  module _ (no_segment : usable (shmat none) ≡ false)
      (apart : (s s' : Segment) (i : ℕ) → shmget s ≡ some i → shmget s' ≡ some i → s ≡ s') where
    id_of : (s : Segment) → usable (shmat (shmget s)) ≡ true → (i : ℕ) × (shmget s ≡ some i)
    id_of s h = elim (Option-cases (shmget s)) [
      | inl fails ↦ absurd (ground (arith, fails, no_segment, h))
      | inr (i, e) ↦ (i, e)
    ]

    made_and_cleaned :
        all_usable opens sem_open shmget shmat true shmctl ≡ true
        → OnlyCounterLeft (made ++ cleaned)
    made_and_cleaned h =
        let (w, is_w) = id_of of_waiting (ground (arith, h)) in
        let (c, is_c) = id_of of_counter (ground (arith, h)) in
        let (t, is_t) = id_of of_transported (ground (arith, h)) in
        let (r, is_r) = id_of of_rid_counter (ground (arith, h)) in
        let segments = segment_effects opens sem_open shmget shmat true shmctl in
        let all : segments
            ≡ made_segment w ∷ made_segment c ∷ made_segment t ∷ made_segment r ∷ [] =
          simp (is_w, is_c, is_t, is_r) refl in
        (
          semaphores_left-cleaned made,
          (
            c,
            is_c,
            ap segments_left (
                  append_assoc (semaphore_effects opens sem_open shmget shmat true shmctl) segments
                    cleaned)
                ∙ segments_left-semaphores (segments ++ cleaned)
                ∙ ap (λ es. segments_left (es ++ cleaned)) all
                ∙ segments_left-cleaned w c t r is_w is_c is_t is_r
                    (λ e.
                      different of_waiting
                        (apart of_counter of_waiting c is_c (is_w ∙ ap some (sym e))) tt)
                    (λ e.
                      different of_transported
                        (apart of_counter of_transported c is_c (is_t ∙ ap some (sym e))) tt)
                    (λ e.
                      different of_rid_counter
                        (apart of_counter of_rid_counter c is_c (is_r ∙ ap some (sym e))) tt),
          ),
        )

    -- If `shmget` never gives one segment twice, `shmat` does not succeed where it failed, and `fclose` succeeds: once the file is
    -- open, `set_resources` ends with its own error or the program at its end, and in both cases all
    -- semaphores are removed and the segment of `counter` is left for ever; or it crashes, and nothing that it
    -- has made is removed.
    pub set_resources-Leaves : Leaves (set_resources opens sem_open shmget shmat true shmctl)
    unfolding set_resources
    set_resources-Leaves =
        let run = set_resources opens sem_open shmget shmat true shmctl in
        elim (Bool-cases opens) [
          | inr fails ↦
              let e : run ≡ stopped [] = rw fails refl in subst Leaves (sym e) (inl (fails, refl))
          | inl opened ↦ elim (Bool-cases (all_usable opens sem_open shmget shmat true shmctl)) [
            | inr bad ↦
                let e : run ≡ crashed made = rw opened (rw bad refl) in subst Leaves (sym e) refl
            | inl good ↦ elim (Bool-cases (is_error opens sem_open shmget shmat true shmctl)) [
              | inl error ↦
                  let e : run ≡ stopped (made ++ cleaned) = rw opened (rw good (rw error refl)) in
                  subst Leaves (sym e) (inr (made_and_cleaned good))
              | inr fine ↦
                  let e : run ≡ ready made = rw opened (rw good (rw fine refl)) in
                  subst Leaves (sym e) (made_and_cleaned good)
            ]
          ]
        ]
