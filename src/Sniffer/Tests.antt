-- ===== src/Sniffer/Tests.antt =====
-- Two options, a packet of four bytes, and an IPv6 header.
use school_projects.Base.{
  arith, ℕ, zero, suc, ◌≤◌, ◌≡◌, refl, Bool, true, false, none, some, [], ◌∷◌, ltb,
}
use school_projects.Base.Int.{pos}
use school_projects.D6r.{Bytes}
use school_projects.Sniffer.{
  Text, Arguments, CliOption, tcp, Parsed, print_packet_content, start_arguments,
}
use school_projects.Sniffer.Options.{PortInRange, start_arguments_lem}
use school_projects.Sniffer.Content.{joined, layout, print_packet_content_lem}

-- A text of one digit is a number.
abbrev digit : Text → Parsed
digit (d ∷ []) = record { value = pos d; complete = true; out_of_range = false }
digit _ = record { value = pos 0; complete = false; out_of_range = false }

abbrev chosen : Arguments
chosen = record { interface = none; port = pos 80; num = pos 1; is_tcp = true; is_udp = false }

start_arguments_lem_example : PortInRange chosen.port × ((n : ℕ) × (chosen.num ≡ pos n) × (1 ≤ n))
unfolding start_arguments
start_arguments_lem_example =
    start_arguments_lem digit (CliOption.port (some (80 ∷ [])) ∷ tcp ∷ []) false chosen refl

abbrev printable : ℕ → Bool
printable b = ltb 31 b

abbrev four_bytes : Text
four_bytes = 65 ∷ 66 ∷ 0 ∷ 67 ∷ []

abbrev times : ℕ → ℕ → Bytes
times zero b = []
times (suc n) b = b ∷ times n b

print_packet_content_lem_example :
    (print_packet_content printable (joined (times 16 65 ∷ []) four_bytes)
      ≡ layout printable 0 [] (times 16 65 ∷ []) four_bytes)
    × (print_packet_content printable [] ≡ [])
print_packet_content_lem_example =
    print_packet_content_lem printable (times 16 65 ∷ []) four_bytes (refl, tt) (omega arith)
      (omega arith)
