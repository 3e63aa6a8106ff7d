-- ===== src/D6r/Options.antt =====
-- The loops of `process_msg_from_server` over the options of a message: they stop at the end of what was
-- received, or when they have found what they look for.
use school_projects.Base.{
  ℕ, zero, suc, ◌+◌, ◌*◌, ◌<◌, ◌≡◌, ◌≢◌, refl, arith, Bool, true, false, ◌||◌, Bool-cases, inl, inr,
  Option, none, some, Option-cases, leb,
}
use school_projects.D6r.{Bytes, Run, out_of_fuel, fault, returns, view_option, skip}

module _ {S : Type 0} (note : (code len : ℕ) (option option_data : Bytes) → S → Option S)
    (found : S → Bool) (read_count : ℕ) where
  -- `i` is the offset of the pointer `p`, and `s` what was found so far.
  unfoldable pub walk : (fuel i : ℕ) (p : Bytes) → S → Run S
  walk zero i p s = out_of_fuel
  walk (suc k) i p s = elim (view_option p) [
    | none ↦ fault
    | some (code, len, rest) ↦ elim (note code len p rest s) [
      | none ↦ fault
      | some s' ↦ elim (leb read_count (i + (len + 4)) || found s') [
        | true ↦ returns s'
        | false ↦ walk k (i + (len + 4)) (skip len rest) s'
      ]
    ]
  ]

  -- What one turn of a loop does at an option that can be read.
  module _ (k i : ℕ) {p : Bytes} {s : S} {code len : ℕ} {rest : Bytes} {s' : S}
      (shown : view_option p ≡ some (code, len, rest))
      (noted : note code len p rest s ≡ some s') where
    pub walk_last :
        (leb read_count (i + (len + 4)) || found s') ≡ true → walk (suc k) i p s ≡ returns s'
    unfolding walk
    walk_last e = rw (shown, walk) (rw noted (rw e refl))

    pub walk_more :
        (leb read_count (i + (len + 4)) || found s') ≡ false
        → walk (suc k) i p s ≡ walk k (i + (len + 4)) (skip len rest) s'
    unfolding walk
    walk_more e = rw (shown, walk) (rw noted (rw e refl))

  -- A loop ends after as many options as can stand in what was received.
  pub walk_ends :
      (fuel i : ℕ) (p : Bytes) (s : S)
      → read_count < i + 4 * fuel
      → 0 < fuel
      → walk fuel i p s ≢ out_of_fuel
  unfolding walk
  walk_ends zero i p s enough some_fuel = absurd (omega arith)
  walk_ends (suc k) i p s enough some_fuel = elim (Option-cases (view_option p)) [
    | inl short ↦ rw (short, walk) (λ e. absurd cc)
    | inr ((code, len, rest), shown) ↦
        rw (shown, walk)
          (elim (Option-cases (note code len p rest s)) [
            | inl outside ↦ rw outside (λ e. absurd cc)
            | inr (s', noted) ↦
                rw noted (elim (Bool-cases (leb read_count (i + (len + 4)) || found s')) [
                  | inl last ↦ rw last (λ e. absurd cc)
                  | inr more ↦ rw more (
                      walk_ends k (i + (len + 4)) (skip len rest) s' (ground (arith, more))
                        (ground (arith, more)))
                ])
          ])
  ]
