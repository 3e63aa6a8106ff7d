-- ===== src/D6r/Forward.antt =====
-- What `handle_packet_from_client` sends to the server.
use school_projects.Base.{
  ℕ, ◌+◌, ◌-◌, ◌<◌, ◌≡◌, refl, ◌∙◌, ap, arith, true, false, some, [], ◌∷◌, ◌++◌, length,
  length-append, ltb,
}
use school_projects.D6r.{Bytes, Text, skip, copy_from, htons, returns}
use school_projects.D6r.Headers.{get_udph_from_ipv6h, get_udph_from_ipv6h_direct}
use school_projects.D6r.Client.{
  Interface, link_address, relayed, encode_option, forward_message, forward_message_len, insert,
  send_forward, handle_udp, handle_packet_from_client,
}
use school_projects.D6r.Server.{MacMap}
use school_projects.D6r.Wire.{
  skip-append, skip-append_more, copy_from-append, byte_at-append, ntohs-htons,
}

-- A UDP packet over IPv6 without extension headers: `start` is the 6 bytes of the IPv6 header before `nexthdr`,
-- and `rest` what follows the datagram in what was captured.
abbrev pub udp_packet :
    (destination source start : Bytes) (hop_limit : ℕ) (saddr daddr ports sum payload rest : Bytes)
    → Bytes
udp_packet destination source start hop_limit saddr daddr ports sum payload rest =
    destination
    ++ (source
        ++ 134
          ∷ 221
          ∷ (start
              ++ 17
                ∷ hop_limit
                ∷ (saddr
                    ++ (daddr
                        ++ (ports ++ (htons (8 + length payload) ++ (sum ++ (payload ++ rest))))))))

-- The message has as many bytes as are allocated for it.
pub forward_message-length :
    (link peer payload mac name : Bytes)
    → length link ≡ 16
    → length peer ≡ 16
    → length mac ≡ 6
    → length (forward_message link peer payload mac name)
      ≡ forward_message_len (8 + length payload) (length name)
unfolding forward_message
forward_message-length link peer payload mac name l p m = omega (
  arith,
  l,
  p,
  m,
  length-append link (peer ++ options),
  length-append peer options,
  length-append (encode_option 9 payload) (others),
  length-append (encode_option 79 (htons 1 ++ mac)) (encode_option 18 name),
)
  where
    others : Bytes
    others = encode_option 79 (htons 1 ++ mac) ++ encode_option 18 name

    options : Bytes
    options = encode_option 9 payload ++ others

module _ (destination source start : Bytes) (hop_limit : ℕ)
    (saddr daddr ports sum payload rest : Bytes) (l1 : length destination ≡ 6)
    (l2 : length source ≡ 6) (l3 : length start ≡ 6) (l4 : length saddr ≡ 16)
    (l5 : length daddr ≡ 16) (l6 : length ports ≡ 4) (l7 : length sum ≡ 2) where
  abbrev packet : Bytes
  packet = udp_packet destination source start hop_limit saddr daddr ports sum payload rest

  abbrev udp : Bytes
  udp = ports ++ (htons (8 + length payload) ++ (sum ++ (payload ++ rest)))

  abbrev ip6 : Bytes
  ip6 = start ++ 17 ∷ hop_limit ∷ (saddr ++ (daddr ++ udp))

  mac_copied : copy_from 6 (skip 6 packet) ≡ some source
  mac_copied = ap (copy_from 6) (skip-append 6 destination _ l1) ∙ copy_from-append 6 source _ l2

  skip_ether : skip 12 packet ≡ 134 ∷ 221 ∷ ip6
  skip_ether = skip-append_more 6 6 12 destination _ l1 refl ∙ skip-append 6 source _ l2

  skip-ip6 : skip 14 packet ≡ ip6
  skip-ip6 = skip-append_more 6 8 14 destination _ l1 refl ∙ skip-append_more 6 2 8 source _ l2 refl

  peer_copied : copy_from 16 (skip 8 ip6) ≡ some saddr
  peer_copied =
      ap (copy_from 16) (skip-append_more 6 2 8 start _ l3 refl) ∙ copy_from-append 16 saddr _ l4

  skip-udp : skip 40 ip6 ≡ udp
  skip-udp =
      skip-append_more 6 34 40 start _ l3 refl
      ∙ skip-append_more 16 16 32 saddr _ l4 refl
      ∙ skip-append 16 daddr _ l5

  udp_found : get_udph_from_ipv6h ip6 ≡ returns udp
  udp_found =
      get_udph_from_ipv6h_direct ip6
        (byte_at-append 6 start 17 (hop_limit ∷ (saddr ++ (daddr ++ udp))) l3)
      ∙ ap returns skip-udp

  skip-length : skip 4 udp ≡ htons (8 + length payload) ++ (sum ++ (payload ++ rest))
  skip-length = skip-append 4 ports _ l6

  skip_payload : skip 8 udp ≡ payload ++ rest
  skip_payload = skip-append_more 4 4 8 ports _ l6 refl ∙ skip-append 2 sum _ l7

  module _ (inet_ntop ether_ntoa : Bytes → Text) (interface : Interface) (macs : MacMap) where
    send_forward_lem :
        (link : Bytes)
        → send_forward inet_ntop ether_ntoa interface macs
            (some link)
            saddr
            packet
            udp
            (8 + length payload)
          ≡ returns (
              some (record {
                message = forward_message link saddr payload source interface.name;
                macs = insert (inet_ntop saddr) (ether_ntoa source) macs;
              }))
    unfolding send_forward
    send_forward_lem link =
        let enough : ltb (8 + length payload) 8 ≡ false = ground arith in
        let same : 8 + length payload - 8 ≡ length payload = omega arith in
        rw enough (
          rw same (
            rw skip_payload
              (rw (copy_from-append (length payload) payload rest refl) (rw mac_copied refl))))

    -- A packet with an Ethernet header, an IPv6 header without extension headers, and a UDP header: the message of
    -- a client goes to the server with the address of the client, its MAC address and the name of the
    -- interface, if the message has 65527 bytes at most, its type is one that is relayed, and the interface has an address.
    pub handle_packet_from_client_lem :
        (msg_type : ℕ) (message link : Bytes)
        → payload ≡ msg_type ∷ message
        → 8 + length payload < 65536
        → relayed msg_type ≡ true
        → link_address interface.addresses ≡ some link
        → handle_packet_from_client inet_ntop ether_ntoa interface macs packet
          ≡ returns (
              some (record {
                message = forward_message link saddr payload source interface.name;
                macs = insert (inet_ntop saddr) (ether_ntoa source) macs;
              }))
    unfolding handle_packet_from_client handle_udp
    handle_packet_from_client_lem msg_type message link shape short type_ok linked =
        let first : copy_from 1 (skip 8 udp) ≡ some (msg_type ∷ []) =
          ap (copy_from 1) skip_payload ∙ ap (λ p. copy_from 1 (p ++ rest)) shape in
        rw skip_ether (
          rw skip-ip6 (
            rw peer_copied (
              rw udp_found (
                rw first (
                  rw type_ok (
                    rw skip-length (
                      rw (ntohs-htons (8 + length payload) short)
                        (rw linked (send_forward_lem link)))))))))
