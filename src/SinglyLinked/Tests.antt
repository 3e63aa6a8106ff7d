-- ===== src/SinglyLinked/Tests.antt =====
-- The theorems on the singly linked list, applied to lists of no, one and two elements.
use school_projects.Base.{refl, false, none, some, List, [], ◌∷◌, arith}
use school_projects.Base.Int.{pos, negsuc}
use school_projects.Memory.{null, Heap, Malloc, write}
use school_projects.Memory.Pool.{pool}
use school_projects.Memory.Returns.{Returns}
use school_projects.ListView.{View, view}
use school_projects.ListView.Client.{Follows, run}
use school_projects.SinglyLinked.{Elem, ListWorld}
use school_projects.SinglyLinked.Chain.{IsList}
use school_projects.SinglyLinked.Dispose.{empty_list}
use school_projects.SinglyLinked.Run
use school_projects.SinglyLinked.Run.{Call, spec, step, reply, next, step_refines, run_refines}

abbrev malloc : Malloc Elem
malloc = pool 3 (record { ptr = null; value = pos 0 })

abbrev no_blocks : Heap Elem
no_blocks _ = none

abbrev empty : ListWorld
empty = record { heap = no_blocks; list = empty_list; errflg = false }

empty-IsList : IsList no_blocks empty (view [] [] false)
empty-IsList = record {
  first = refl;
  act = refl;
  errflg = refl;
  memory = λ a. refl;
  distinct = tt;
  nonnull = refl;
  apart = λ a h. ground arith;
}

abbrev one : ListWorld
one = record {
  heap = write no_blocks 1 (some (record { ptr = null; value = pos 7 }));
  list = record { act = null; first = 1 };
  errflg = false;
}

abbrev two : ListWorld
two = record {
  heap =
      write (write no_blocks 1 (some (record { ptr = null; value = pos 7 }))) 2
        (some (record { ptr = 1; value = negsuc 3 }));
  list = record { act = 1; first = 2 };
  errflg = false;
}

abbrev calls : List Call
calls =
    Run.insert_first (pos 1)
    ∷ Run.first
    ∷ Run.post_insert (pos 2)
    ∷ Run.succ
    ∷ Run.copy (pos 0)
    ∷ Run.delete_first
    ∷ Run.actualize (pos 5)
    ∷ Run.copy_first (pos 0)
    ∷ Run.active
    ∷ []

run_refines_example :
    Returns
      (λ rs w'. (z' : View) × Follows spec (view [] [] false) calls rs z' × IsList no_blocks w' z')
      (run (step malloc) calls empty)
run_refines_example = run_refines malloc calls (view [] [] false) empty-IsList
