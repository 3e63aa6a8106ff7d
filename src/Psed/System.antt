-- ===== src/Psed/System.antt =====
-- `main` and the `n` threads together: in each step one of them takes its next step. A run is a sequence of
-- steps in a given order: 0 stands for `main`, i + 1 for the thread i.
use school_projects.Base.{
  ℕ, zero, suc, ◌<◌, ◌≡◌, refl, arith, Option, none, some, List, [], ◌∷◌, if◌then◌else◌, ltb, false,
  Bool-cases, Option-cases, subst, inl, inr,
}
use school_projects.Base.Family.{change}
use school_projects.Psed.{Text, Shared, ThreadPc, thread_step, lock_line, MainPc, main_step, read}

pub record System : Type 0 where
  pub shared : Shared
  pub driver : MainPc
  pub threads : ℕ → ThreadPc

-- All mutexes of the threads are locked, and the threads have started.
abbrev pub start_of_run : List Text → System
start_of_run ls = record {
  shared = record {
    zamky = λ i. 0;
    std_out = 1;
    thread_id = 1;
    line = none;
    thread_id_done = 0;
    input = ls;
    output = [];
  };
  driver = read;
  threads = λ i. lock_line false;
}

module _ (edit : ℕ → Text → Text) (n : ℕ) where
  pub data Step : System → System → Type 0 where
    work :
        (s : System) (i : ℕ) {s' : Shared} {p : ThreadPc}
        → i < n
        → thread_step edit i (s.threads i) s.shared ≡ some (s', p)
        → Step s (record s { shared = s'; threads = change s.threads i p })
    drive :
        (s : System) {s' : Shared} {m : MainPc}
        → main_step n s.driver s.threads s.shared ≡ some (s', m)
        → Step s (record s { shared = s'; driver = m })

  pub data Reach (s : System) : System → Type 0 where
    here : Reach s s
    next : {t u : System} → Reach s t → Step t u → Reach s u

  drive_to : System → Option (Shared × MainPc) → Option System
  drive_to s none = none
  drive_to s (some (s', m)) = some (record s { shared = s'; driver = m })

  work_to : System → ℕ → Option (Shared × ThreadPc) → Option System
  work_to s i none = none
  work_to s i (some (s', p)) = some (record s { shared = s'; threads = change s.threads i p })

  go : ℕ → System → Option System
  unfolding drive_to work_to
  go zero s = drive_to s (main_step n s.driver s.threads s.shared)
  go (suc i) s = if ltb i n then work_to s i (thread_step edit i (s.threads i) s.shared) else none

  run_after : (System → Option System) → Option System → Option System
  run_after k none = none
  run_after k (some t) = k t

  unfoldable pub run : List ℕ → System → Option System
  unfolding go run_after main_step thread_step
  run [] s = some s
  run (i ∷ is) s = run_after (run is) (go i s)

  drive_to-Step :
      (s : System) {t : System} (o : Option (Shared × MainPc))
      → main_step n s.driver s.threads s.shared ≡ o
      → drive_to s o ≡ some t
      → Step s t
  unfolding drive_to
  drive_to-Step s none e h = absurd cc
  drive_to-Step s {t} (some (s', m)) e h =
      let same : (record s { shared = s'; driver = m }) ≡ t = cc in
      subst (λ (u : System). Step s u) same (drive s e)

  work_to-Step :
      (s : System) (i : ℕ) {t : System} (o : Option (Shared × ThreadPc))
      → i < n
      → thread_step edit i (s.threads i) s.shared ≡ o
      → work_to s i o ≡ some t
      → Step s t
  unfolding work_to
  work_to-Step s i none lt e h = absurd cc
  work_to-Step s i {t} (some (s', p)) lt e h =
      let same : (record s { shared = s'; threads = change s.threads i p }) ≡ t = cc in
      subst (λ (u : System). Step s u) same (work s i lt e)

  go-Step : (i : ℕ) (s : System) {t : System} → go i s ≡ some t → Step s t
  unfolding go
  go-Step zero s e = drive_to-Step s _ refl e
  go-Step (suc i) s e = elim (Bool-cases (ltb i n)) [
    | inl lt ↦ work_to-Step s i _ (ground arith) refl (rw lt at e)
    | inr ge ↦ absurd (ground arith)
  ]

  pub run-Reach : (is : List ℕ) {s t u : System} → Reach s t → run is t ≡ some u → Reach s u
  unfolding run run_after
  run-Reach [] {s} {t} {u} h e = let same : t ≡ u = cc in subst (λ (v : System). Reach s v) same h
  run-Reach (i ∷ is) {s} {t} h e = elim (Option-cases (go i t)) [
    | inl stops ↦ absurd (cc)
    | inr (t', goes) ↦ run-Reach is (next h (go-Step i t goes)) (rw goes at e)
  ]
