-- ===== src/Psed/Tests.antt =====
-- Two threads, of which the first puts a 1 before a line and the second a 2, and an input of two lines.
use school_projects.Base.{
  ℕ, zero, suc, ◌+◌, ◌≤◌, ◌≡◌, ◌≢◌, ◌⊎◌, refl, arith, Option, Option-cases, inl, inr, none, some,
  List, [], ◌∷◌, ◌++◌,
}
use school_projects.Psed.{Text, ThreadPc, MainPc, read_line, check_line_step}
use school_projects.Psed.System.{System, start_of_run, Reach, here, run, run-Reach}
use school_projects.Psed.Output.{print_all}
use school_projects.Psed.Thread.{turn, prints_now}
use school_projects.Psed.Round.{main_turn}
use school_projects.Psed.Safety.{output_lem, output_prefix, mutex_lem, free_lem}

abbrev mark : ℕ → Text → Text
mark i l = suc i ∷ l

abbrev two_lines : List Text
two_lines = (5 ∷ []) ∷ (6 ∷ 7 ∷ []) ∷ []

outcome : System → Option System → System
outcome s none = s
outcome s (some t) = t

-- The processes in turn, in the order of `is`; one that waits is passed over.
attempts : List ℕ → System → System
unfolding outcome
attempts [] s = s
attempts (i ∷ is) s = attempts is (outcome s (run mark 2 (i ∷ []) s))

in_turn : ℕ → List ℕ
in_turn zero = []
in_turn (suc k) = 0 ∷ 2 ∷ 1 ∷ in_turn k

attempts-Reach : (is : List ℕ) {s t : System} → Reach mark 2 s t → Reach mark 2 s (attempts is t)
unfolding attempts outcome
attempts-Reach [] h = h
attempts-Reach (i ∷ is) {s} {t} h = elim (Option-cases (run mark 2 (i ∷ []) t)) [
  | inl stops ↦ rw stops (attempts-Reach is h)
  | inr (u, goes) ↦ rw goes (attempts-Reach is (run-Reach mark 2 (i ∷ []) h goes))
]

after_all : System
unfolding attempts in_turn
after_all = attempts (in_turn 90) (start_of_run two_lines)

after_all-Reach : Reach mark 2 (start_of_run two_lines) after_all
unfolding after_all
after_all-Reach = attempts-Reach (in_turn 90) here

after_all-exited : after_all.driver ≡ MainPc.exited
unfolding after_all attempts in_turn outcome run read_line check_line_step
after_all-exited = refl

-- In the middle of the second line.
half_way : System
unfolding attempts in_turn
half_way = attempts (in_turn 30) (start_of_run two_lines)

half_way-Reach : Reach mark 2 (start_of_run two_lines) half_way
unfolding half_way
half_way-Reach = attempts-Reach (in_turn 30) here

-- With no line on the input, a thread frees `result` before it has a value.
empty_input : (attempts (in_turn 6) (start_of_run [])).threads 0 ≡ ThreadPc.invalid_free
unfolding attempts in_turn outcome run read_line check_line_step
empty_input = refl

output_lem_example : after_all.shared.output ≡ print_all mark 2 two_lines
output_lem_example = output_lem mark 2 two_lines after_all-Reach after_all-exited

output_prefix_example :
    (rest : List Text) × (print_all mark 2 two_lines ≡ half_way.shared.output ++ rest)
output_prefix_example = output_prefix mark 2 two_lines half_way-Reach

mutex_lem_example :
    (half_way.shared.std_out ≤ 1)
    × (half_way.shared.thread_id ≤ 1)
    × (half_way.shared.zamky 0 ≤ 1)
    × (turn (half_way.threads 0) + main_turn half_way.driver ≤ 1)
    × (◌≡◌ {A = ℕ} 0 1
        ⊎ ((prints_now (half_way.threads 0) + prints_now (half_way.threads 1) ≤ 1)
            × (turn (half_way.threads 0) + turn (half_way.threads 1) ≤ 1)))
mutex_lem_example = mutex_lem mark 2 two_lines half_way-Reach 0 1 (omega arith) (omega arith)

free_lem_example : after_all.threads 0 ≢ ThreadPc.invalid_free
free_lem_example = free_lem mark 2 two_lines after_all-Reach 0 (omega arith) (λ e. absurd cc)
