-- ===== src/D6r.antt =====
-- The DHCPv6 relay of sem_5/isa/proj/d6r.cpp. A message is the list of its bytes, and a pointer into one is
-- what is left of it from there on, so that a read past the end of a buffer shows as a list that is too
-- short. `inet_ntop`, `ether_ntoa` and `to_string` are the library's, and return the text that they make.
mod Tests
pub mod Options
pub mod Client
pub mod Server
pub mod Wire
pub mod Forward
pub mod Answer
pub mod ReadBack
pub mod Scan
pub mod Reply
pub mod Headers
pub mod Log
pub mod Ends
pub mod Start
use school_projects.Base.{
  ℕ, zero, suc, ◌+◌, ◌*◌, ◌/◌, ◌%◌, Option, none, some, List, [], ◌∷◌, ◌++◌, length,
}

abbrev pub Bytes : Type 0
Bytes = List ℕ

abbrev pub Text : Type 0
Text = List ℕ

-- A pointer moved forward by `n` bytes.
abbrev pub skip : ℕ → Bytes → Bytes
skip zero p = p
skip (suc n) [] = []
skip (suc n) (b ∷ p) = skip n p

-- `memcpy` of `n` bytes from a pointer; none if it reads past the end.
abbrev pub copy_from : ℕ → Bytes → Option Bytes
copy_from zero p = some []
copy_from (suc n) [] = none
copy_from (suc n) (b ∷ p) = elim (copy_from n p) [ none ↦ none | some bs ↦ some (b ∷ bs) ]

-- A number of 16 bits in the order of the network.
abbrev pub htons : ℕ → Bytes
htons n = n / 256 % 256 ∷ n % 256 ∷ []

abbrev pub ntohs : (high low : ℕ) → ℕ
ntohs high low = 256 * high + low

-- The result of a function: it has not returned within the fuel, it has read or written where it may
-- not, it has ended the program by `err` or `exit`, or it has returned.
pub data Run {ℓ} (A : Type ℓ) : Type ℓ where
  out_of_fuel : Run A
  fault : Run A
  stops : Run A
  returns : A → Run A

-- The code, the length and the data of the option at a pointer.
abbrev pub view_option : Bytes → Option (ℕ × ℕ × Bytes)
view_option (a ∷ b ∷ c ∷ d ∷ rest) = some (ntohs a b, ntohs c d, rest)
view_option _ = none

abbrev pub option_relay_msg : ℕ
option_relay_msg = 9

abbrev pub option_interface_id : ℕ
option_interface_id = 18

abbrev pub option_client_linklayer_addr : ℕ
option_client_linklayer_addr = 79
