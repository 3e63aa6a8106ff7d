-- ===== src/Base/Steps.antt =====
-- The result of a process's next step: the shared state and the process, or none where it waits.
use school_projects.Base.{◌≡◌, refl, Option, none, some, Bool, true, false, if◌then◌else◌}

-- What holds of the result of a step, if there is one.
abbrev pub Then : {S A : Type 0} → (S → A → Type 0) → Option (S × A) → Type 0
Then P none = Unit
Then P (some (s, a)) = P s a

pub Then-if :
    {S A : Type 0} (P : S → A → Type 0) (b : Bool) (s : S) (a : A)
    → (b ≡ true → P s a)
    → Then P (if b then some (s, a) else none)
Then-if P true s a h = h refl
Then-if P false s a h = tt

pub Then-if_both :
    {S A : Type 0} (P : S → A → Type 0) (b : Bool) (s s' : S) (a a' : A)
    → (b ≡ true → P s a)
    → (b ≡ false → P s' a')
    → Then P (if b then some (s, a) else some (s', a'))
Then-if_both P true s s' a a' h k = h refl
Then-if_both P false s s' a a' h k = k refl

pub Then-some :
    {S A : Type 0} (P : S → A → Type 0) {o : Option (S × A)} {s : S} {a : A}
    → Then P o
    → o ≡ some (s, a)
    → P s a
Then-some P t e = rw e at t
