-- ===== src/Memory.antt =====
-- Blocks at addresses, and the commands by which the list programs read and write them.
pub mod Cells
pub mod Pool
pub mod Returns
use school_projects.Base.{ℕ, ◌≡◌, ◌≢◌, Bool, true, Option, none, some, ◌==◌, if◌then◌else◌}

abbrev pub Ptr : Type 0
Ptr = ℕ

abbrev pub null : Ptr
null = 0

abbrev pub Heap : Type 0 → Type 0
Heap E = Ptr → Option E

abbrev pub write : {E : Type 0} → Heap E → Ptr → Option E → Heap E
write h p c a = if a == p then c else h a

-- The blocks of type `E`, the list variable of type `H`, and the global `errflg`.
pub record World (E H : Type 0) : Type 0 where
  pub heap : Heap E
  pub list : H
  pub errflg : Bool

-- `undefined` is an access through NULL or to a block that is not allocated; `exhausted` means that
-- a loop has used up its fuel.
pub data Outcome (S A : Type 0) : Type 0 where
  done : A → S → Outcome S A
  undefined : Outcome S A
  exhausted : Outcome S A

abbrev pub Cmd : Type 0 → Type 0 → Type 0
Cmd S A = S → Outcome S A

module _ {S A : Type 0} where
  abbrev pub pure : A → Cmd S A
  pure = done

module _ {S A B : Type 0} where
  abbrev pub and_then : Outcome S A → (A → Cmd S B) → Outcome S B
  and_then (done a s) k = k a s
  and_then undefined k = undefined
  and_then exhausted k = exhausted

  infixl 5 ◌>>=◌ ◌>>◌
  abbrev pub ◌>>=◌ : Cmd S A → (A → Cmd S B) → Cmd S B
  m >>= k = λ s. and_then (m s) k

  abbrev pub ◌>>◌ : Cmd S A → Cmd S B → Cmd S B
  m >> n = m >>= λ _. n

-- What a call of `malloc` returns: an address, NULL if memory is exhausted, and what the new block
-- happens to hold.
pub record Block (E : Type 0) : Type 0 where
  pub address : Ptr
  pub content : E

-- The C library's `malloc`, for blocks of one type: whether it succeeds, and where, may depend on all
-- that is allocated. What the programs rely on is that a block they get is not in use already.
pub record Malloc (E : Type 0) : Type 0 where
  pub block : Heap E → Block E
  pub fresh : (h : Heap E) → (block h).address ≢ null → h (block h).address ≡ none

module _ {E H : Type 0} where
  -- `L->...` on the right, and an assignment to fields of the list variable.
  abbrev pub get : Cmd (World E H) H
  get w = done w.list w

  abbrev pub put : H → Cmd (World E H) (Unit {0})
  put l w = done tt (record w { list = l })

  -- `errflg = TRUE`; the message that goes with it is output only.
  abbrev pub set_errflg : Cmd (World E H) (Unit {0})
  set_errflg w = done tt (record w { errflg = true })

  abbrev pub store : Ptr → Option E → Cmd (World E H) (Unit {0})
  store p c w = done tt (record w { heap = write w.heap p c })

  -- `*p`
  unfoldable pub load : Ptr → Cmd (World E H) E
  load p w =
      if p == null then undefined else elim (w.heap p) [ none ↦ undefined | some c ↦ done c w ]

  -- An assignment to fields of `*p`.
  unfoldable pub modify : Ptr → (E → E) → Cmd (World E H) (Unit {0})
  unfolding load
  modify p f = load p >>= λ c. store p (some (f c))

  unfoldable pub free : Ptr → Cmd (World E H) (Unit {0})
  unfolding load
  free p = load p >> store p none

  -- The address that the next `malloc` returns.
  abbrev pub next_address : Malloc E → World E H → Ptr
  next_address m w = (m.block w.heap).address

  -- `malloc(sizeof(E))`: a block that is not NULL becomes allocated.
  unfoldable pub allocate : Malloc E → Cmd (World E H) Ptr
  allocate m w =
      let b = m.block w.heap in
      if b.address == null
      then done null w
      else done b.address (record w { heap = write w.heap b.address (some b.content) })
