-- ===== src/Memory/Returns.antt =====
-- Total correctness of a command: it is defined, its fuel suffices, and its result has a property.
use school_projects.Base.{◌≡◌, ◌≢◌, none, some, arith}
use school_projects.Memory.{
  Ptr, null, write, World, Outcome, Cmd, and_then, done, undefined, exhausted, load, modify, free,
}

module _ {S A : Type 0} where
  abbrev pub Returns : (A → S → Type 0) → Outcome S A → Type 0
  Returns P (done a s) = P a s
  Returns P undefined = ⊥
  Returns P exhausted = ⊥

module _ {S A B : Type 0} where
  -- The parts of a sequence are proved one by one.
  pub bind :
      {P : A → S → Type 0} (Q : B → S → Type 0) (r : Outcome S A) (k : A → Cmd S B)
      → Returns P r
      → ((a : A) (s : S) → P a s → Returns Q (k a s))
      → Returns Q (and_then r k)
  bind Q (done a s) k p next = next a s p
  bind Q undefined k p next = p
  bind Q exhausted k p next = p

module _ {S A : Type 0} where
  -- What is proved of a result implies more.
  pub weaken :
      {P : A → S → Type 0} (Q : A → S → Type 0) (r : Outcome S A)
      → Returns P r
      → ((a : A) (s : S) → P a s → Q a s)
      → Returns Q r
  weaken Q (done a s) p more = more a s p
  weaken Q undefined p more = p
  weaken Q exhausted p more = p

module _ {E H : Type 0} (w : World E H) (p : Ptr) {c : E} (ne : p ≢ null)
    (holds : w.heap p ≡ some c) where
  pub load-done : load p w ≡ done c w
  unfolding load
  load-done = ground arith

  pub modify-done :
      (f : E → E) → modify p f w ≡ done tt (record w { heap = write w.heap p (some (f c)) })
  unfolding modify
  modify-done f = rw load-done

  pub free-done : free p w ≡ done tt (record w { heap = write w.heap p none })
  unfolding free
  free-done = rw load-done
