-- ===== src/Memory/Pool.antt =====
-- A `malloc` that can be run: it takes the first free address of a pool.
use school_projects.Base.{ℕ, zero, suc, ◌≡◌, ◌≢◌, none, some, refl, Option-cases, inl, inr}
use school_projects.Memory.{Ptr, null, Heap, Malloc}

module _ {E : Type 0} where
  -- The first free one of the `k` addresses from `a` on.
  abbrev pub first_free : ℕ → Ptr → Heap E → Ptr
  first_free zero a h = null
  first_free (suc k) a h = elim (h a) [ none ↦ a | some _ ↦ first_free k (suc a) h ]

  pub first_free-fresh :
      (k : ℕ) (a : Ptr) (h : Heap E) → first_free k a h ≢ null → h (first_free k a h) ≡ none
  first_free-fresh zero a h ne = absurd (ne refl)
  first_free-fresh (suc k) a h ne = elim (Option-cases (h a)) [
    | inl unused ↦ rw (unused, first_free) unused
    | inr (_, used) ↦
        rw (used, first_free) (first_free-fresh k (suc a) h (rw (used, first_free) at ne))
  ]

  abbrev pub pool : ℕ → E → Malloc E
  pool size content = record {
    block = λ h. record { address = first_free size 1 h; content = content };
    fresh = λ h ne. first_free-fresh size 1 h ne;
  }
