-- ===== src/Allocator/Program.antt =====
-- The arenas of mmal.c, the search, and the functions that a program calls. Loops take fuel.
use school_projects.Base.{
  ℕ, zero, suc, ◌+◌, ◌-◌, ◌%◌, ◌==◌, ltb, leb, if◌then◌else◌, true, false, not,
}
use school_projects.Memory.{Ptr, null, done, exhausted, Cmd, pure, ◌>>=◌, ◌>>◌}
use school_projects.Allocator.{
  Arenas, sizeof_header, sizeof_arena, word, sub_size, load_header, store_header, load_arena,
  store_arena, get_first, assert, first_block,
}
use school_projects.Allocator.Blocks.{
  hdr_ctor, hdr_can_merge, hdr_merge, place, hdr_get_prev, allign_page,
}

unfoldable pub append_loop : ℕ → (a tmp : Ptr) → Cmd Arenas (Unit {0})
append_loop zero a tmp = λ s. exhausted
append_loop (suc fuel) a tmp = do
  t ← load_arena tmp
  elim (t.next == null) [
    | true ↦ store_arena tmp (record t { next = a })
    | false ↦ append_loop fuel a t.next
  ]

unfoldable pub arena_append : ℕ → Ptr → Cmd Arenas (Unit {0})
arena_append fuel a = do
  first ← get_first
  elim (a == null) [
    | true ↦ pure tt
    | false ↦ elim (first == null) [
      | true ↦ λ s. done tt (record s { first_arena = a })
      | false ↦ append_loop fuel a first
    ]
  ]

-- `mmap` returns an address, or 0 for MAP_FAILED; the memory that it maps is filled with zeros.
module _ (mmap : Arenas → ℕ → Ptr) where
  unfoldable pub arena_alloc : ℕ → Cmd Arenas Ptr
  unfolding hdr_ctor
  arena_alloc req_size = do
    assert (ltb (sizeof_arena + sizeof_header) req_size)
    a ← (λ s. done (mmap s req_size) s)
    elim (a == null) [
      | true ↦ pure null
      | false ↦ do
        store_arena a (record { next = null; size = req_size })
        store_header (first_block a) (record { next = null; size = 0; asize = 0 })
        hdr_ctor (first_block a) (req_size - sizeof_arena - sizeof_header)
        first ← get_first
        h ← load_header (first_block a)
        store_header (first_block a)
            (record h { next = if first == null then first_block a else first_block first })
        pure a
    ]

  -- The inner loop of `first_fit`, which only a `return` leaves, at `firstH`.
  unfoldable pub fit_loop : ℕ → (size : ℕ) (address firstH : Ptr) → Cmd Arenas Ptr
  fit_loop zero size address firstH = λ s. exhausted
  fit_loop (suc fuel) size address firstH = do
    h ← load_header firstH
    elim (ltb size (sub_size h.size h.asize)) [
      | true ↦ pure firstH
      | false ↦ elim (h.next == address) [
        | true ↦ do
          a ← arena_alloc (allign_page ((size + sizeof_header + sizeof_arena) % word))
          elim (a == null) [
            | true ↦ pure null
            | false ↦ do
              arena_append fuel a
              h' ← load_header firstH
              store_header firstH (record h' { next = first_block a })
              fit_loop fuel size address (first_block a)
          ]
        | false ↦ fit_loop fuel size address h.next
      ]
    ]

  unfoldable pub first_fit : ℕ → ℕ → Cmd Arenas Ptr
  first_fit fuel size = do
    first ← get_first
    fit_loop fuel size (first_block first) (first_block first)

  unfoldable pub mmalloc : ℕ → ℕ → Cmd Arenas Ptr
  unfolding first_fit
  mmalloc fuel size = do
    first ← get_first
    a ←
        (if first == null
          then arena_alloc (allign_page ((size + sizeof_arena + sizeof_header) % word))
          else pure first)
    elim (a == null) [
      | true ↦ pure null
      | false ↦ do
        if first == null then arena_append fuel a else pure tt
        h ← first_fit fuel size
        elim (h == null) [ true ↦ pure null | false ↦ do place h size; pure (h + sizeof_header) ]
    ]

-- The header before the memory that a program has: `(long) ptr - sizeof(Header)`.
abbrev pub header_of : Ptr → Ptr
header_of ptr = (ptr + word - sizeof_header) % word

-- The second part of `mfree`: a merge with the block before, which is looked up for each use.
unfoldable pub merge_before : ℕ → Ptr → Cmd Arenas (Unit {0})
merge_before fuel h = do
  p ← hdr_get_prev fuel h
  elim (ltb p h) [
    | false ↦ pure tt
    | true ↦ do
      p' ← hdr_get_prev fuel h
      both ← hdr_can_merge p' h
      elim both [ false ↦ pure tt | true ↦ do p'' ← hdr_get_prev fuel h; hdr_merge p'' h ]
  ]

unfoldable pub mfree : ℕ → Ptr → Cmd Arenas (Unit {0})
mfree fuel ptr = do
  assert (not (ptr == null))
  let h = header_of ptr
  b ← load_header h
  store_header h (record b { asize = 0 })
  both ← hdr_can_merge h b.next
  if both then hdr_merge h b.next else pure tt
  merge_before fuel h

-- `memcpy` needs memory on both sides; what it copies is not modelled.
unfoldable pub mrealloc : (mmap : Arenas → ℕ → Ptr) → ℕ → Ptr → ℕ → Cmd Arenas Ptr
mrealloc mmap fuel ptr size = elim (size == 0) [
  | true ↦ (do mfree fuel ptr; pure null)
  | false ↦ elim (ptr == null) [
    | true ↦ mmalloc mmap fuel size
    | false ↦ do
      head ← load_header (header_of ptr)
      elim (leb size head.asize) [
        | true ↦ do
          store_header (header_of ptr) (record head { asize = 0 })
          place (header_of ptr) size
          pure ptr
        | false ↦ do
          fresh ← mmalloc mmap fuel size
          old ← load_header (header_of ptr)
          assert (not (fresh == null))
          mfree fuel ptr
          pure fresh
      ]
  ]
]
