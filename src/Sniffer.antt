-- ===== src/Sniffer.antt =====
-- The packet sniffer of sem_6/ipk/proj2/ipk-sniffer.cpp: its options, its filter, and what it prints of a
-- packet. `strtol`, `isprint` and the texts of addresses are the library's. A packet is the list of the bytes
-- that were captured, with the pointers of D6r.
mod Tests
pub mod Options
pub mod Packet
pub mod Content
use school_projects.Base.{
  ℕ, zero, suc, ◌+◌, ◌-◌, ◌*◌, ◌%◌, ◌^◌, Bool, true, false, not, ◌&&◌, ◌||◌, Option, none, some,
  List, [], ◌∷◌, ◌++◌, ltb, leb, ◌==◌, if◌then◌else◌,
}
use school_projects.Base.Int.{ℤ, pos, negsuc, ltb_ℤ, eqb_ℤ}

abbrev pub Text : Type 0
Text = List ℕ

-- `args_cli`; -1 stands for no port and no number.
pub record Arguments : Type 0 where
  pub interface : Option Text
  pub port : ℤ
  pub num : ℤ
  pub is_tcp : Bool
  pub is_udp : Bool

abbrev pub arguments_default : Arguments
arguments_default = record {
  interface = none;
  port = negsuc 0;
  num = negsuc 0;
  is_tcp = false;
  is_udp = false;
}

-- What `getopt_long` returns, with `optarg`.
pub data CliOption : Type 0 where
  interface : Text → CliOption
  port : Option Text → CliOption
  num : Text → CliOption
  tcp : CliOption
  udp : CliOption
  unknown : CliOption

-- The cast of a `long` to `int`, from the number modulo 2 ^ 32.
abbrev pub from_bits : ℕ → ℤ
from_bits m = if ltb m (2 ^ 31) then pos m else negsuc (2 ^ 32 - 1 - m)

abbrev pub to_int : ℤ → ℤ
to_int (pos n) = from_bits (n % 2 ^ 32)
to_int (negsuc n) = from_bits (2 ^ 32 - 1 - n % 2 ^ 32)

-- The number, whether all of the text was read, and whether `errno` is set to ERANGE.
pub record Parsed : Type 0 where
  pub value : ℤ
  pub complete : Bool
  pub out_of_range : Bool

abbrev pub then_take : Option Arguments → (Arguments → Option Arguments) → Option Arguments
then_take none k = none
then_take (some a) k = k a

module _ (strtol : Text → Parsed) where
  -- `-p`, and the range that its message gives.
  unfoldable pub take_port : Text → Arguments → Option Arguments
  take_port t a =
      let n = to_int (strtol t).value in
      if (strtol t).complete && not (ltb_ℤ n (pos 0) || ltb_ℤ (pos 65353) n)
      then some (record a { port = n })
      else none

  -- `-n`; `range` is whether `errno` is ERANGE.
  unfoldable pub take_num : Text → (range : Bool) → Arguments → Option Arguments
  take_num t range a =
      let n = to_int (strtol t).value in
      if (strtol t).complete && not (ltb_ℤ n (pos 1) || range)
      then some (record a { num = n })
      else none

  -- The loop over the options; `range` is whether `errno` is ERANGE, and none is the exit with ERR_ARG.
  unfoldable pub take_options : List CliOption → (range : Bool) → Arguments → Option Arguments
  unfolding take_port take_num
  take_options [] range a = some a
  take_options (CliOption.interface t ∷ os) range a =
      take_options os range (record a { interface = some t })
  take_options (CliOption.port none ∷ os) range a = none
  take_options (CliOption.port (some t) ∷ os) range a =
      then_take (take_port t a) (λ b. take_options os (range || (strtol t).out_of_range) b)
  take_options (CliOption.num t ∷ os) range a =
      then_take (take_num t (range || (strtol t).out_of_range) a)
        (λ b. take_options os (range || (strtol t).out_of_range) b)
  take_options (tcp ∷ os) range a = take_options os range (record a { is_tcp = true })
  take_options (udp ∷ os) range a = take_options os range (record a { is_udp = true })
  take_options (unknown ∷ os) range a = none

  unfoldable pub process_cli_arguments : List CliOption → (extra : Bool) → Option Arguments
  unfolding take_options
  process_cli_arguments os extra =
      then_take (take_options os false arguments_default) (λ a. if extra then none else some a)

  -- In `main`, without `-n` one packet is shown.
  unfoldable pub start_arguments : List CliOption → (extra : Bool) → Option Arguments
  unfolding process_cli_arguments
  start_arguments os extra =
      then_take (process_cli_arguments os extra)
        (λ a. if eqb_ℤ a.num (negsuc 0) then some (record a { num = pos 1 }) else some a)

-- The words of a filter, which the program joins by spaces.
pub data Word : Type 0 where
  udp : Word
  tcp : Word
  or : Word
  port : (n : ℤ) → Word

abbrev pub add_port_if_needed : Arguments → List Word → List Word
add_port_if_needed a filter =
    if eqb_ℤ a.port (negsuc 0) then filter else filter ++ Word.port a.port ∷ []

abbrev pub add_or : List Word → Word → List Word
add_or [] w = w ∷ []
add_or (v ∷ filter) w = (v ∷ filter) ++ or ∷ w ∷ []

abbrev pub add_udp_if_needed : Arguments → List Word → List Word
add_udp_if_needed a filter =
    if a.is_udp then add_port_if_needed a (add_or filter Word.udp) else filter

abbrev pub add_tcp_if_needed : Arguments → List Word → List Word
add_tcp_if_needed a filter =
    if a.is_tcp then add_port_if_needed a (add_or filter Word.tcp) else filter

unfoldable pub build_filter : Arguments → List Word
build_filter a =
    let filter = add_tcp_if_needed a (add_udp_if_needed a []) in
    if not a.is_tcp && not a.is_udp then add_port_if_needed a filter else filter

-- What `print_packet_content` writes: a line with the characters of the row before, the offset of a row, and the bytes.
pub data Printed : Type 0 where
  characters : Text → Printed
  offset : (i : ℕ) → Printed
  hex : (b : ℕ) → Printed

module _ (isprint : ℕ → Bool) where
  abbrev pub shown : ℕ → ℕ
  shown b = if isprint b then b else 46

  -- The loop from `i` on, with `contentString`.
  unfoldable pub print_loop : (i : ℕ) → (packet content : Text) → List Printed
  print_loop i [] content = []
  print_loop i (b ∷ packet) content =
      if i % 16 == 0
      then characters content ∷ offset i ∷ hex b ∷ print_loop (suc i) packet (shown b ∷ [])
      else hex b ∷ print_loop (suc i) packet (content ++ shown b ∷ [])

  unfoldable pub print_packet_content : (packet : Text) → List Printed
  unfolding print_loop
  print_packet_content packet = print_loop 0 packet []
