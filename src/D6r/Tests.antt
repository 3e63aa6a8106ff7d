-- ===== src/D6r/Tests.antt =====
-- A client on the interface eth0, a SOLICIT of it, and the server's answers.
use school_projects.Base.{
  ℕ, zero, suc, ◌≡◌, ◌≢◌, refl, arith, Bool, true, false, none, some, [], ◌∷◌,
}
use school_projects.D6r.{copy_from, Bytes, Text, skip, out_of_fuel, returns}
use school_projects.D6r.Options.{walk}
use school_projects.D6r.Client.{
  Address, Interface, forward_message, handle_packet_from_client, insert,
}
use school_projects.D6r.Server.{
  none_found, note_message, both_found, no_name, process_msg_from_server,
}
use school_projects.D6r.Forward.{udp_packet, handle_packet_from_client_lem}
use school_projects.D6r.Answer.{reply_returns, plain_delivery, interface_first, message_first}
use school_projects.D6r.ReadBack.{forward_reads_back}
use school_projects.D6r.Scan.{Finds, overwrite, scan}
use school_projects.D6r.Reply.{relay_reply, delivered, process_msg_from_server_lem}
use school_projects.D6r.Ends.{process_msg_from_server_ends}

abbrev times : ℕ → ℕ → Bytes
times zero b = []
times (suc n) b = b ∷ times n b

-- The texts of the library's functions are those bytes themselves.
abbrev same : Bytes → Text
same bs = bs

abbrev digits : ℕ → Text
digits n = n ∷ []

abbrev mac : Bytes
mac = 2 ∷ 4 ∷ 6 ∷ 8 ∷ 10 ∷ 12 ∷ []

abbrev client : Bytes
client = 254 ∷ 128 ∷ times 14 3

abbrev link : Bytes
link = 32 ∷ 1 ∷ times 14 0

abbrev eth0 : Bytes
eth0 = 101 ∷ 116 ∷ 104 ∷ 48 ∷ []

abbrev address : Bool → Bool → Address
address v6 mask = record { is_ipv6 = v6; has_mask = mask; bytes = link }

abbrev interface : Interface
interface = record { name = eth0; addresses = address false true ∷ address true true ∷ [] }

abbrev solicit : Bytes
solicit = 1 ∷ 9 ∷ 9 ∷ 9 ∷ []

handle_packet_from_client_lem_example :
    handle_packet_from_client same same interface [] (
      udp_packet
        (times 6 51)
        mac
        (times 6 96)
        64
        client
        (times 16 255)
        (times 4 1)
        (times 2 0)
        solicit
        [])
    ≡ returns (
        some (record {
          message = forward_message link client solicit mac eth0;
          macs = insert client mac [];
        }))
handle_packet_from_client_lem_example =
    handle_packet_from_client_lem (times 6 51) mac (times 6 96) 64 client (times 16 255) (times 4 1)
      (times 2 0) solicit [] refl refl refl refl refl refl refl same same interface [] 1
      (9 ∷ 9 ∷ 9 ∷ []) link refl (omega arith) refl refl

forward_reads_back_example :
    (copy_from 16 (skip 2 (forward_message link client solicit mac eth0)) ≡ some link)
    × (copy_from 16 (skip 18 (forward_message link client solicit mac eth0)) ≡ some client)
    × Finds
        (walk note_message both_found 62 62 34
          (skip 34 (forward_message link client solicit mac eth0))
          none_found)
        (overwrite no_name eth0, some solicit)
unfolding forward_message
forward_reads_back_example =
    forward_reads_back link client solicit mac 101 (116 ∷ 104 ∷ 48 ∷ []) 62 refl refl refl
      (omega arith) (omega arith) (λ e. absurd (omega (arith, e))) refl

reply_returns_example :
    (process_msg_from_server same digits []
        (relay_reply 0 link client (interface_first eth0 (2 ∷ 9 ∷ [])) (times 3 7))
        48
      ≡ returns (plain_delivery eth0 client (2 ∷ 9 ∷ [])))
    × (process_msg_from_server same digits []
          (relay_reply 0 link client (message_first eth0 (2 ∷ 9 ∷ [])) (times 3 7))
          48
        ≡ returns (plain_delivery eth0 client (2 ∷ 9 ∷ [])))
reply_returns_example =
    reply_returns same digits [] 0 link client 101 (116 ∷ 104 ∷ 48 ∷ []) 2 (9 ∷ []) (times 3 7) 48
      refl refl (omega arith) (λ e. absurd (omega (arith, e))) (omega arith)
      (λ e. absurd (omega (arith, e))) refl

-- Without a relay message.
process_msg_from_server_lem_example :
    process_msg_from_server same digits [] (relay_reply 0 link client ((18, eth0) ∷ []) []) 42
    ≡ delivered client (scan ((18, eth0) ∷ []) no_name none)
process_msg_from_server_lem_example =
    process_msg_from_server_lem same digits [] 0 link client ((18, eth0) ∷ []) [] refl refl 42
      (omega arith, omega arith, (λ e. omega arith), tt) (λ e. absurd cc) refl tt

abbrev leased : Bytes
leased = 32 ∷ 2 ∷ times 14 5

-- A buffer full of bytes 255, which hold no option that ends.
process_msg_from_server_ends_example :
    process_msg_from_server same digits [] (13 ∷ times 200 255) 100 ≢ out_of_fuel
process_msg_from_server_ends_example =
    process_msg_from_server_ends same digits [] (13 ∷ times 200 255) 100
