-- ===== src/D6r/Client.antt =====
-- `handle_packet_from_client`: a client's message is put into a relay-forward message for the server.
use school_projects.Base.{
  ℕ, ◌+◌, ◌-◌, Bool, ◌&&◌, ◌||◌, Option, none, some, List, [], ◌∷◌, ◌++◌, length, ltb, ◌==◌,
  if◌then◌else◌,
}
use school_projects.D6r.{
  Bytes, Text, skip, copy_from, htons, ntohs, Run, fault, returns, option_relay_msg,
  option_interface_id, option_client_linklayer_addr,
}
use school_projects.D6r.Headers.{get_udph_from_ipv6h}
use school_projects.D6r.Server.{MacMap, after, reading, find, is_some, first_byte}

-- An address of an interface: whether its family is AF_INET6, whether it has a mask, and its bytes.
pub record Address : Type 0 where
  pub is_ipv6 : Bool
  pub has_mask : Bool
  pub bytes : Bytes

pub record Interface : Type 0 where
  pub name : Bytes
  pub addresses : List Address

-- `ip6_link_address`: the first address that fits; none leaves it without a value.
abbrev pub link_address : List Address → Option Bytes
link_address [] = none
link_address (a ∷ rest) = if a.is_ipv6 && a.has_mask then some a.bytes else link_address rest

-- The types of messages that are relayed.
abbrev pub relayed : ℕ → Bool
relayed t = t == 1 || t == 3 || t == 4 || t == 5 || t == 6 || t == 8 || t == 9 || t == 11

-- An option: its code, its length, and its data.
abbrev pub encode_option : ℕ → Bytes → Bytes
encode_option code content = htons code ++ (htons (length content) ++ content)

-- `forward_message`, field by field.
unfoldable pub forward_message : (link peer payload mac name : Bytes) → Bytes
forward_message link peer payload mac name =
    12
    ∷ 0
    ∷ (link
        ++ (peer
            ++ (encode_option option_relay_msg payload
                ++ (encode_option option_client_linklayer_addr (htons 1 ++ mac)
                    ++ encode_option option_interface_id name))))

-- `forward_message_len`, from `uh_ulen` and the length of the interface's name.
abbrev pub forward_message_len : (ulen name_length : ℕ) → ℕ
forward_message_len ulen name_length = 34 + 4 + ulen - 8 + 12 + 4 + name_length

-- `std::map::insert` leaves an entry that is there.
abbrev pub insert : Text → Text → MacMap → MacMap
insert key value m = if is_some (find m key) then m else (key, value) ∷ m

-- What is sent to the server, and the map after it.
pub record Forward : Type 0 where
  pub message : Bytes
  pub macs : MacMap

abbrev pub two_bytes : Bytes → ℕ
two_bytes (a ∷ b ∷ p) = ntohs a b
two_bytes _ = 0

module _ (inet_ntop ether_ntoa : Bytes → Text) (interface : Interface) (macs : MacMap) where
  unfoldable pub send_forward :
      (link : Option Bytes) (peer packet udp : Bytes) (ulen : ℕ) → Run (Option Forward)
  send_forward link peer packet udp ulen =
      if ltb ulen 8
      then fault
      else reading link (λ link. reading (copy_from (ulen - 8) (skip 8 udp)) (λ payload.
        reading (copy_from 6 (skip 6 packet)) (λ mac. returns (
          some (record {
            message = forward_message link peer payload mac interface.name;
            macs = insert (inet_ntop peer) (ether_ntoa mac) macs;
          })))))

  unfoldable pub handle_udp : (peer packet udp : Bytes) → Run (Option Forward)
  unfolding send_forward
  handle_udp peer packet udp = reading (copy_from 1 (skip 8 udp)) (λ msg_type.
      if relayed (first_byte msg_type)
      then reading (copy_from 2 (skip 4 udp))
          (λ ulen. send_forward (link_address interface.addresses) peer packet udp (two_bytes ulen))
      else returns none)

  unfoldable pub handle_packet_from_client : Bytes → Run (Option Forward)
  unfolding handle_udp
  handle_packet_from_client packet = reading (copy_from 2 (skip 12 packet)) (λ ether_type.
      if two_bytes ether_type == 34525
      then reading (copy_from 16 (skip 8 (skip 14 packet)))
          (λ peer. after (get_udph_from_ipv6h (skip 14 packet)) (handle_udp peer packet))
      else returns none)
