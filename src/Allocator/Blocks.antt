-- ===== src/Allocator/Blocks.antt =====
-- The operations of mmal.c on headers: those called `hdr_` there.
use school_projects.Base.{
  ℕ, zero, suc, ◌+◌, ◌-◌, ◌*◌, ◌/◌, ◌%◌, ◌==◌, ltb, leb, if◌then◌else◌, Bool, true, false, not,
  ◌&&◌,
}
use school_projects.Memory.{Ptr, null, exhausted, Cmd, pure, ◌>>=◌, ◌>>◌}
use school_projects.Allocator.{
  Arenas, sizeof_header, page_size, word, sub_size, load_header, store_header, get_first, assert,
}

unfoldable pub allign_page : ℕ → ℕ
allign_page size = (size + page_size - 1) % word / page_size * page_size

unfoldable pub hdr_ctor : Ptr → ℕ → Cmd Arenas (Unit {0})
hdr_ctor hdr size =
    if hdr == null
    then pure tt
    else (do h ← load_header hdr; store_header hdr (record h { size = size; asize = 0 }))

unfoldable pub hdr_should_split : Ptr → ℕ → Cmd Arenas Bool
hdr_should_split hdr size = do
  h ← load_header hdr
  assert (h.asize == 0)
  assert (ltb 0 size)
  pure (ltb ((size + 2 * sizeof_header) % word) h.size)

-- The new header is written into the old block.
unfoldable pub hdr_split : Ptr → ℕ → Cmd Arenas Ptr
hdr_split hdr req_size = do
  h ← load_header hdr
  assert (leb ((req_size + 2 * sizeof_header) % word) h.size)
  let right = hdr + sizeof_header + req_size
  store_header hdr (record h { next = right })
  store_header right (record {
    next = h.next;
    size = sub_size (sub_size h.size req_size) sizeof_header;
    asize = 0;
  })
  h' ← load_header hdr
  store_header hdr (record h' { size = req_size })
  pure right

unfoldable pub hdr_can_merge : Ptr → Ptr → Cmd Arenas Bool
hdr_can_merge left right = do
  l ← load_header left
  assert (l.next == right)
  assert (not (left == right))
  r ← load_header right
  pure (l.asize == 0 && r.asize == 0)

unfoldable pub hdr_merge : Ptr → Ptr → Cmd Arenas (Unit {0})
hdr_merge left right = do
  l ← load_header left
  assert (l.next == right)
  assert (not (left == right))
  r ← load_header right
  store_header left (record l { next = r.next; size = (l.size + sizeof_header + r.size) % word })

-- What `mmalloc` and `mrealloc` do with the block that they take: a split where it pays, and the new `asize`.
unfoldable pub place : Ptr → ℕ → Cmd Arenas (Unit {0})
place h size = do
  b ← hdr_should_split h size
  if b then (do right ← hdr_split h size; pure tt) else pure tt
  c ← load_header h
  store_header h (record c { asize = size })

-- The loop of `hdr_get_prev` at `hdr`, with its flag `secondloop`.
unfoldable pub prev_loop : ℕ → (address hdr : Ptr) → Bool → Cmd Arenas Ptr
prev_loop zero address hdr secondloop = λ s. exhausted
prev_loop (suc fuel) address hdr secondloop = do
  h ← load_header hdr
  elim (h.next == address) [
    | true ↦ pure hdr
    | false ↦ elim (hdr == address && secondloop) [
      | true ↦ pure hdr
      | false ↦ prev_loop fuel address h.next (if hdr == address then true else secondloop)
    ]
  ]

unfoldable pub hdr_get_prev : ℕ → Ptr → Cmd Arenas Ptr
hdr_get_prev fuel hdr = do a ← get_first; assert (not (a == null)); prev_loop fuel hdr hdr false
