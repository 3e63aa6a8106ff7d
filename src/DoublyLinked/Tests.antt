-- ===== src/DoublyLinked/Tests.antt =====
-- The theorems on the doubly linked list, applied to lists of no and of two elements.
use school_projects.Base.{refl, false, none, some, List, [], ◌∷◌, arith}
use school_projects.Base.Int.{pos, negsuc}
use school_projects.Memory.{null, Heap, Malloc, write}
use school_projects.Memory.Pool.{pool}
use school_projects.Memory.Returns.{Returns}
use school_projects.ListView.{View, view}
use school_projects.ListView.Client.{Follows, run}
use school_projects.DoublyLinked.{Elem, ListWorld}
use school_projects.DoublyLinked.Chain.{IsList}
use school_projects.DoublyLinked.Dispose.{empty_list}
use school_projects.DoublyLinked.Run
use school_projects.DoublyLinked.Run.{
  Call, spec, step, reply, next, step_refines_both_ways, run_refines_both_ways,
}

abbrev malloc : Malloc Elem
malloc = pool 3 (record { value = pos 0; lptr = null; rptr = null })

abbrev no_blocks : Heap Elem
no_blocks _ = none

abbrev empty : ListWorld
empty = record { heap = no_blocks; list = empty_list; errflg = false }

empty-IsList : IsList no_blocks empty (view [] [] false)
empty-IsList = record {
  first = refl;
  act_is = refl;
  last = refl;
  errflg_is = refl;
  chain = record {
    memory = λ a. ground arith;
    distinct = tt;
    nonnull = refl;
    apart = λ a h. ground arith;
  };
}

abbrev two : ListWorld
two = record {
  heap =
      write (write no_blocks 1 (some (record { value = pos 7; lptr = 2; rptr = null }))) 2
        (some (record { value = negsuc 3; lptr = null; rptr = 1 }));
  list = record { act = 1; first = 2; last = 1 };
  errflg = false;
}

abbrev calls : List Call
calls =
    Run.insert_first (pos 1)
    ∷ Run.insert_last (pos 4)
    ∷ Run.first
    ∷ Run.post_insert (pos 2)
    ∷ Run.succ
    ∷ Run.copy (pos 0)
    ∷ Run.delete_first
    ∷ Run.actualize (pos 5)
    ∷ Run.copy_last (pos 0)
    ∷ Run.pred
    ∷ Run.active
    ∷ []

run_refines_both_ways_example :
    Returns
      (λ rs w'. (z' : View) × Follows spec (view [] [] false) calls rs z' × IsList no_blocks w' z')
      (run (step malloc) calls empty)
run_refines_both_ways_example = run_refines_both_ways malloc calls (view [] [] false) empty-IsList
