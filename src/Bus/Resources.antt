-- ===== src/Bus/Resources.antt =====
-- `set_resources` and `clean_resources` of proj2.c. The answers of the system are parameters, and an effect is a
-- call that makes or removes something of the system. A call to remove counts whatever its answer, which
-- decides only if the function returns or exits: there is nothing else that the function could do about it.
pub mod Left
use school_projects.Base.{
  ℕ, ◌≡◌, Bool, true, false, not, ◌&&◌, ◌||◌, Option, none, some, List, [], ◌∷◌, ◌++◌,
  if◌then◌else◌,
}

pub data Semaphore : Type 0 where
  mutex : Semaphore
  mutex2 : Semaphore
  bus_arrived : Semaphore
  all_boarded : Semaphore
  can_finish : Semaphore

-- The segments of shared memory, by the pointers to them.
pub data Segment : Type 0 where
  of_waiting : Segment
  of_counter : Segment
  of_transported : Segment
  of_rid_counter : Segment

-- `shmctl` is called with what `shmget` returned, -1 included.
pub data Effect : Type 0 where
  made_semaphore : Semaphore → Effect
  made_segment : ℕ → Effect
  closed : Semaphore → Effect
  unlinked : Semaphore → Effect
  removed : Option ℕ → Effect

-- `shmat` returns NULL, the address -1, or one that can be used.
pub data Attached : Type 0 where
  at_null : Attached
  at_minus_one : Attached
  at_segment : Attached

-- The program goes on, has called `exit`, or writes through a pointer that does not point to anything.
pub data Setup : Type 0 where
  ready : List Effect → Setup
  stopped : List Effect → Setup
  crashed : List Effect → Setup

abbrev pub usable : Attached → Bool
usable at_segment = true
usable at_null = false
usable at_minus_one = false

-- An answer of `sem_open` or `shmget` that sets `error`, and its effect.
abbrev pub missing : Option ℕ → Bool
missing none = true
missing (some id) = false

abbrev pub segment_effect : Option ℕ → List Effect
segment_effect none = []
segment_effect (some id) = made_segment id ∷ []

abbrev pub semaphore_effect : Semaphore → Bool → List Effect
semaphore_effect s opened = if opened then made_semaphore s ∷ [] else []

module _ (closes : Bool) (shmctl : (call : ℕ) → Option ℕ → Bool) (ids : Segment → Option ℕ) where
  abbrev pub removals : List Effect
  removals =
      removed (ids of_waiting)
      ∷ removed (ids of_transported)
      ∷ removed (ids of_waiting)
      ∷ removed (ids of_rid_counter)
      ∷ []

  -- Whether the function returns; it calls `exit` if `fclose` or a removal fails.
  unfoldable pub clean_resources : Bool × List Effect
  clean_resources =
      if closes
      then (
        shmctl 0 (ids of_waiting)
            && shmctl 1 (ids of_transported)
            && shmctl 2 (ids of_waiting)
            && shmctl 3 (ids of_rid_counter),
        closed mutex
            ∷ closed mutex2
            ∷ closed bus_arrived
            ∷ closed all_boarded
            ∷ closed can_finish
            ∷ unlinked mutex
            ∷ unlinked mutex2
            ∷ unlinked bus_arrived
            ∷ unlinked all_boarded
            ∷ unlinked can_finish
            ∷ removals,
      )
      else (false, [])

module _ (opens : Bool) (sem_open : Semaphore → Bool) (shmget : Segment → Option ℕ)
    (shmat : Option ℕ → Attached) (closes : Bool) (shmctl : (call : ℕ) → Option ℕ → Bool) where
  abbrev pub semaphore_effects : List Effect
  semaphore_effects =
      semaphore_effect mutex (sem_open mutex)
      ++ (semaphore_effect mutex2 (sem_open mutex2)
          ++ (semaphore_effect bus_arrived (sem_open bus_arrived)
              ++ (semaphore_effect all_boarded (sem_open all_boarded)
                  ++ semaphore_effect can_finish (sem_open can_finish))))

  abbrev pub segment_effects : List Effect
  segment_effects =
      segment_effect (shmget of_waiting)
      ++ (segment_effect (shmget of_counter)
          ++ (segment_effect (shmget of_transported) ++ segment_effect (shmget of_rid_counter)))

  abbrev pub all_usable : Bool
  all_usable =
      usable (shmat (shmget of_waiting))
      && usable (shmat (shmget of_counter))
      && usable (shmat (shmget of_rid_counter))
      && usable (shmat (shmget of_transported))

  -- `error` where all pointers can be used.
  abbrev pub is_error : Bool
  is_error =
      not (sem_open mutex)
      || not (sem_open mutex2)
      || not (sem_open bus_arrived)
      || not (sem_open all_boarded)
      || not (sem_open can_finish)
      || missing (shmget of_waiting)
      || missing (shmget of_counter)
      || missing (shmget of_transported)
      || missing (shmget of_rid_counter)

  -- The zeros are written before `error` is tested.
  unfoldable pub set_resources : Setup
  unfolding clean_resources
  set_resources =
      let made = semaphore_effects ++ segment_effects in
      if opens
      then (if all_usable
          then (if is_error
              then stopped (made ++ (clean_resources closes shmctl shmget).1)
              else ready made)
          else crashed made)
      else stopped []
