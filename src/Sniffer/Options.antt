-- ===== src/Sniffer/Options.antt =====
-- The ranges of the port and of the number of packets.
use school_projects.Base.{
  ℕ, ◌≤◌, ◌≡◌, refl, arith, Bool, true, false, not, ◌&&◌, ◌||◌, Bool-cases, inl, inr, Option, none,
  some, List, [], ◌∷◌, if◌then◌else◌,
}
use school_projects.Base.Int.{ℤ, pos, negsuc, ltb_ℤ, eqb_ℤ}
use school_projects.Sniffer.{
  Text, Arguments, arguments_default, CliOption, tcp, udp, unknown, Parsed, take_port, take_num,
  then_take, take_options, process_cli_arguments, start_arguments,
}

abbrev pub PortInRange : ℤ → Type 0
PortInRange (pos n) = n ≤ 65353
PortInRange (negsuc n) = n ≡ 0

abbrev pub NumInRange : ℤ → Type 0
NumInRange (pos n) = 1 ≤ n
NumInRange (negsuc n) = n ≡ 0

abbrev InRange : Arguments → Type 0
InRange a = PortInRange a.port × NumInRange a.num

-- What holds of the arguments that an option leaves.
abbrev After : (Arguments → Type 0) → Option Arguments → Type 0
After P none = Unit
After P (some a) = P a

After-then :
    (P Q : Arguments → Type 0) (o : Option Arguments) (k : Arguments → Option Arguments)
    → After P o
    → ((a : Arguments) → P a → After Q (k a))
    → After Q (then_take o k)
After-then P Q none k h g = tt
After-then P Q (some a) k h g = g a h

After-if :
    (P : Arguments → Type 0) (b : Bool) (a : Arguments)
    → (b ≡ true → P a)
    → After P (if b then some a else none)
After-if P true a h = h refl
After-if P false a h = tt

and_right : (b c : Bool) → (b && c) ≡ true → c ≡ true
and_right true c h = h
and_right false c h = absurd cc

accepted_port : (n : ℤ) → not (ltb_ℤ n (pos 0) || ltb_ℤ (pos 65353) n) ≡ true → PortInRange n
accepted_port (pos n) h = ground (arith, h)
accepted_port (negsuc n) h = ground (arith, h)

accepted_num : (n : ℤ) (range : Bool) → not (ltb_ℤ n (pos 1) || range) ≡ true → NumInRange n
accepted_num (pos n) range h = ground (arith, h)
accepted_num (negsuc n) range h = ground (arith, h)

abbrev Ready : Arguments → Type 0
Ready a = PortInRange a.port × ((n : ℕ) × (a.num ≡ pos n) × (1 ≤ n))

After-some :
    (P : Arguments → Type 0) {o : Option Arguments} {a : Arguments} → o ≡ some a → After P o → P a
After-some P e t = rw e at t

After-extra :
    (extra : Bool) (a : Arguments) → InRange a → After InRange (if extra then none else some a)
After-extra true a h = tt
After-extra false a h = h

positive : (z : ℤ) → NumInRange z → eqb_ℤ z (negsuc 0) ≡ false → (n : ℕ) × (z ≡ pos n) × (1 ≤ n)
positive (pos n) h e = (n, refl, h)
positive (negsuc n) h e = absurd (ground (arith, h, e))

module _ (strtol : Text → Parsed) where
  take_options-InRange :
      (os : List CliOption) (range : Bool) (a : Arguments)
      → InRange a
      → After InRange (take_options strtol os range a)
  unfolding take_options take_port take_num
  take_options-InRange [] range a h = h
  take_options-InRange (CliOption.interface t ∷ os) range a h = take_options-InRange os range _ h
  take_options-InRange (CliOption.port none ∷ os) range a h = tt
  take_options-InRange (CliOption.port (some t) ∷ os) range a h =
      After-then InRange InRange (take_port strtol t a) _
        (After-if InRange _ _ (λ e. (accepted_port _ (and_right (strtol t).complete _ e), h.1)))
        (λ b k. take_options-InRange os _ b k)
  take_options-InRange (CliOption.num t ∷ os) range a h =
      After-then InRange InRange (take_num strtol t (range || (strtol t).out_of_range) a) _
        (After-if InRange _ _ (λ e. (h.0, accepted_num _ _ (and_right (strtol t).complete _ e))))
        (λ b k. take_options-InRange os _ b k)
  take_options-InRange (tcp ∷ os) range a h = take_options-InRange os range _ h
  take_options-InRange (udp ∷ os) range a h = take_options-InRange os range _ h
  take_options-InRange (unknown ∷ os) range a h = tt

  -- When the program goes on after its options, the port is -1, for none, or at most 65353, and the number of packets
  -- is at least 1.
  pub start_arguments_lem :
      (os : List CliOption) (extra : Bool) (a : Arguments)
      → start_arguments strtol os extra ≡ some a
      → PortInRange a.port × ((n : ℕ) × (a.num ≡ pos n) × (1 ≤ n))
  unfolding start_arguments process_cli_arguments
  start_arguments_lem os extra a e = After-some Ready e (
      After-then InRange Ready (process_cli_arguments strtol os extra) _
        (After-then InRange InRange (take_options strtol os false arguments_default) _
          (take_options-InRange os false arguments_default (refl, refl)) (After-extra extra))
        default_num)
    where
      default_num :
          (b : Arguments)
          → InRange b
          → After Ready (if eqb_ℤ b.num (negsuc 0) then some (record b { num = pos 1 }) else some b)
      default_num b h = elim (Bool-cases (eqb_ℤ b.num (negsuc 0))) [
        | inl none_given ↦ rw none_given (h.0, (1, refl, omega arith))
        | inr given ↦ rw given (h.0, positive b.num h.1 given)
      ]
