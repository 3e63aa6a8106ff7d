-- ===== src/Allocator.antt =====
-- The allocator of sem_3/ips/proj_2/mmal.c: arenas from `mmap`, a ring of block headers through all of
-- them, and first fit. The content of the blocks is not modelled, only their headers.
pub mod Blocks
pub mod Program
pub mod Ring
pub mod Layout
pub mod Merge
pub mod Previous
pub mod Taken
pub mod Fit
pub mod Resize
pub mod Pages
pub mod Before
pub mod Free
mod Tests
use school_projects.Base.{
  ℕ, zero, suc, ◌+◌, ◌-◌, ◌*◌, ◌/◌, ◌%◌, ◌≡◌, ◌==◌, ltb, leb, if◌then◌else◌, Bool, true, false, not,
  ◌&&◌, Option, none, some,
}
use school_projects.Memory.{
  Ptr, null, Heap, write, Outcome, done, undefined, exhausted, Cmd, pure, ◌>>=◌, ◌>>◌,
}

pub record Header : Type 0 where
  pub next : Ptr
  pub size : ℕ
  pub asize : ℕ

pub record Arena : Type 0 where
  pub next : Ptr
  pub size : ℕ

pub record Arenas : Type 0 where
  pub headers : Heap Header
  pub arenas : Heap Arena
  pub first_arena : Ptr

-- `sizeof(Header)`, `sizeof(Arena)` and `PAGE_SIZE`, where pointers and `size_t` have 64 bits.
abbrev pub sizeof_header : ℕ
sizeof_header = 24

abbrev pub sizeof_arena : ℕ
sizeof_arena = 16

abbrev pub page_size : ℕ
page_size = 131072

abbrev pub word : ℕ
word = 18446744073709551616

-- `a - b` of type `size_t`.
abbrev pub sub_size : ℕ → ℕ → ℕ
sub_size a b = (a + word - b) % word

abbrev pub load_header : Ptr → Cmd Arenas Header
load_header p s = elim (s.headers p) [ none ↦ undefined | some h ↦ done h s ]

abbrev pub store_header : Ptr → Header → Cmd Arenas (Unit {0})
store_header p h s = done tt (record s { headers = write s.headers p (some h) })

abbrev pub load_arena : Ptr → Cmd Arenas Arena
load_arena p s = elim (s.arenas p) [ none ↦ undefined | some a ↦ done a s ]

abbrev pub store_arena : Ptr → Arena → Cmd Arenas (Unit {0})
store_arena p a s = done tt (record s { arenas = write s.arenas p (some a) })

abbrev pub get_first : Cmd Arenas Ptr
get_first s = done s.first_arena s

-- A failed `assert` ends the program.
abbrev pub assert : Bool → Cmd Arenas (Unit {0})
assert true s = done tt s
assert false s = undefined

-- The header of the block that follows an arena's own structure, `&arena[1]`.
abbrev pub first_block : Ptr → Ptr
first_block a = a + sizeof_arena
