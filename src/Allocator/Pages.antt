-- ===== src/Allocator/Pages.antt =====
-- Requests rounded up to pages.
use school_projects.Base.{ℕ, ◌+◌, ◌-◌, ◌*◌, ◌%◌, ◌≤◌, ◌<◌, ◌≡◌, ◌↔◌, ◌≢◌, arith}
use school_projects.Allocator.{page_size, word, sizeof_header, sizeof_arena}
use school_projects.Allocator.Blocks.{allign_page}

module _ (size : ℕ) where
  -- `allign_page` rounds up to the next multiple of `PAGE_SIZE`, where the sum does not overflow.
  pub allign_page-least :
      size + page_size ≤ word
      → (size ≤ allign_page size)
        × (allign_page size < size + page_size)
        × (allign_page size % page_size ≡ 0)
  unfolding allign_page
  allign_page-least h = omega arith

  -- Where the sums do not overflow, the one block of an arena that is made for `size` bytes has more
  -- than `size` of them, which is what `first_fit` tests, exactly when `size` and the two structures
  -- do not fill whole pages.
  pub new_arena_fits :
      size + 2 * page_size ≤ word
      → (size < allign_page (size + sizeof_header + sizeof_arena) - sizeof_arena - sizeof_header)
        ↔ ((size + sizeof_header + sizeof_arena) % page_size ≢ 0)
  unfolding allign_page
  new_arena_fits h = (
    λ (l : size < allign_page (size + sizeof_header + sizeof_arena) - sizeof_arena - sizeof_header).
        λ e. omega (arith, l, e),
    λ ne. omega (arith, ne),
  )
