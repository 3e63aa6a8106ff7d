-- ===== src/ListView/Client.antt =====
-- A client's calls in order, and what they are on the abstract list: for any implementation of the
-- list whose single calls refine it.
use school_projects.Base.{◌≡◌, List, [], ◌∷◌}
use school_projects.Memory.{Ptr, Cmd, pure, ◌>>=◌}
use school_projects.Memory.Returns
use school_projects.Memory.Returns.{Returns}
use school_projects.ListView.{View, Reply}

module _ {S Call : Type 0} (step : Call → Cmd S Reply) where
  unfoldable pub run : List Call → Cmd S (List Reply)
  run [] = pure []
  run (c ∷ cs) = do r ← step c; rs ← run cs; pure (r ∷ rs)

-- The abstract list as its calls see it: what a call replies, and what it makes of the list; the address
-- is what `malloc` returns, if the call asks for memory.
pub record Spec (Call : Type 0) : Type 0 where
  pub reply : Call → View → Reply
  pub next : Ptr → Call → View → View

-- `Follows s z cs rs z'`: the abstract list, called with `cs`, replies `rs` and ends as `z'`, for some
-- results of `malloc`.
pub data Follows {Call : Type 0} (s : Spec Call)
    : View → List Call → List Reply → View → Type 0 where
  stop : {z : View} → Follows s z [] [] z
  call :
      {z z' : View} {c : Call} {cs : List Call} {rs : List Reply} {r : Reply} (p : Ptr)
      → r ≡ s.reply c z
      → Follows s (s.next p c z) cs rs z'
      → Follows s z (c ∷ cs) (r ∷ rs) z'

-- What an implementation shows of its single calls.
pub record Refines {S Call : Type 0} (s : Spec Call) (step : Call → Cmd S Reply)
    (Is : S → View → Type 0) (address : S → Ptr) : Type 0 where
  pub refines :
      (c : Call) {w : S} (z : View)
      → Is w z
      → Returns (λ r w'. (r ≡ s.reply c z) × Is w' (s.next (address w) c z)) (step c w)

module _ {S Call : Type 0} {s : Spec Call} {step : Call → Cmd S Reply} {Is : S → View → Type 0}
    {address : S → Ptr} (i : Refines s step Is address) where
  pub run-Follows :
      (cs : List Call) {w : S} (z : View)
      → Is w z
      → Returns (λ rs w'. (z' : View) × Follows s z cs rs z' × Is w' z') (run step cs w)
  unfolding run
  run-Follows [] z is = (z, stop, is)
  run-Follows (c ∷ cs) {w} z is =
      Returns.bind _ (step c w) _ (i.refines c z is) λ r w1 (e, next_is).
        Returns.bind _ (run step cs w1) _ (run-Follows cs _ next_is)
          λ rs w2 (z', follows, is'). (z', call (address w) e follows, is')
