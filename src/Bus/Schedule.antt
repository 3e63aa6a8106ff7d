-- ===== src/Bus/Schedule.antt =====
-- A run of the processes in a given order: 0 stands for the bus, i + 1 for the rider i.
use school_projects.Base.{
  ℕ, zero, suc, ◌<◌, ◌≡◌, refl, arith, Option, none, some, List, [], ◌∷◌, if◌then◌else◌, ltb,
  Bool-cases, Option-cases, subst, inl, inr,
}
use school_projects.Bus.{Shared, BusPc, Rider, rider_step, bus_step}
use school_projects.Base.Family.{change}
use school_projects.Bus.System.{System, Step, ride, drive, Reach, next}

drive_to : System → Option (Shared × BusPc) → Option System
drive_to s none = none
drive_to s (some (s', p)) = some (record s { shared = s'; driver = p })

ride_to : System → ℕ → Option (Shared × Rider) → Option System
ride_to s i none = none
ride_to s i (some (s', a)) = some (record s { shared = s'; riders = change s.riders i a })

module _ (r c : ℕ) where
  go : ℕ → System → Option System
  unfolding drive_to ride_to
  go zero s = drive_to s (bus_step r c s.driver s.shared)
  go (suc i) s =
      if ltb i r then ride_to s i (rider_step (s.riders i).pc (s.riders i).id s.shared) else none

  run_after : (System → Option System) → Option System → Option System
  run_after k none = none
  run_after k (some t) = k t

  unfoldable pub run : List ℕ → System → Option System
  unfolding go run_after bus_step rider_step
  run [] s = some s
  run (i ∷ is) s = run_after (run is) (go i s)

  drive_to-Step :
      (s : System) {t : System} (o : Option (Shared × BusPc))
      → bus_step r c s.driver s.shared ≡ o
      → drive_to s o ≡ some t
      → Step r c s t
  unfolding drive_to
  drive_to-Step s none e h = absurd cc
  drive_to-Step s {t} (some (s', p)) e h =
      let same : (record s { shared = s'; driver = p }) ≡ t = cc in
      subst (λ (u : System). Step r c s u) same (drive s e)

  ride_to-Step :
      (s : System) (i : ℕ) {t : System} (o : Option (Shared × Rider))
      → i < r
      → rider_step (s.riders i).pc (s.riders i).id s.shared ≡ o
      → ride_to s i o ≡ some t
      → Step r c s t
  unfolding ride_to
  ride_to-Step s i none lt e h = absurd cc
  ride_to-Step s i {t} (some (s', a)) lt e h =
      let same : (record s { shared = s'; riders = change s.riders i a }) ≡ t = cc in
      subst (λ (u : System). Step r c s u) same (ride s i lt e)

  go-Step : (i : ℕ) (s : System) {t : System} → go i s ≡ some t → Step r c s t
  unfolding go
  go-Step zero s e = drive_to-Step s _ refl e
  go-Step (suc i) s e = elim (Bool-cases (ltb i r)) [
    | inl lt ↦ ride_to-Step s i _ (ground arith) refl (rw lt at e)
    | inr ge ↦ absurd (ground arith)
  ]

  pub run-Reach : (is : List ℕ) {s t u : System} → Reach r c s t → run is t ≡ some u → Reach r c s u
  unfolding run run_after
  run-Reach [] {s} {t} {u} h e =
      let same : t ≡ u = cc in subst (λ (v : System). Reach r c s v) same h
  run-Reach (i ∷ is) {s} {t} h e = elim (Option-cases (go i t)) [
    | inl stops ↦ absurd (cc)
    | inr (t', goes) ↦ run-Reach is (next h (go-Step i t goes)) (rw goes at e)
  ]
