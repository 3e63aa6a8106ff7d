-- ===== src/Sniffer/Packet.antt =====
-- `packet_handler`: the ports of a packet, and its content.
use school_projects.Base.{
  ℕ, zero, suc, ◌*◌, ◌%◌, ◌<◌, ◌-◌, ◌≡◌, ◌≢◌, refl, arith, Bool, true, false, ◌&&◌, ◌||◌, not,
  Option, none, some, List, [], ◌∷◌, length, ◌==◌, if◌then◌else◌,
}
use school_projects.Base.Int.{ℤ, pos, negsuc, ltb_ℤ, eqb_ℤ}
use school_projects.D6r.{Bytes, skip, copy_from, ntohs, Run, fault, returns}
use school_projects.D6r.Headers.{byte_at}
use school_projects.D6r.Server.{reading}
use school_projects.Sniffer.{Printed, print_packet_content}

-- A line with the addresses and the ports, and the content.
pub record Shown : Type 0 where
  pub source : Bytes
  pub source_port : ℕ
  pub target : Bytes
  pub target_port : ℕ
  pub content : List Printed

abbrev pub is_transport : ℕ → Bool
is_transport p = p == 6 || p == 17

abbrev pub two_bytes : Bytes → ℕ
two_bytes (a ∷ b ∷ p) = ntohs a b
two_bytes _ = 0

copy_from_short : (n : ℕ) (p : Bytes) → length p < n → copy_from n p ≡ none
copy_from_short zero p h = absurd (omega arith)
copy_from_short (suc n) [] h = refl
copy_from_short (suc n) (b ∷ p) h = rw (copy_from_short n p (omega (arith, h))) refl

length-skip : (n : ℕ) (p : Bytes) → length (skip n p) ≡ length p - n
length-skip zero p = omega arith
length-skip (suc n) [] = omega arith
length-skip (suc n) (b ∷ p) = omega (arith, length-skip n p)

reading_never :
    {A B : Type 0} (o : Option A) (k : A → Run B) (b : B)
    → ((a : A) → k a ≢ returns b)
    → reading o k ≢ returns b
reading_never none k b h = λ e. absurd cc
reading_never (some a) k b h = h a

module _ (isprint : ℕ → Bool) where
  -- The ports at the pointer `transport`, and the `len` bytes of `header->len`.
  unfoldable pub show : (source target transport packet : Bytes) → (len : ℕ) → Run (Option Shown)
  show source target transport packet len = reading (copy_from 2 transport) (λ sport.
      reading (copy_from 2 (skip 2 transport)) (λ dport. reading (copy_from len packet) (λ content.
        returns (
          some (record {
            source = source;
            source_port = two_bytes sport;
            target = target;
            target_port = two_bytes dport;
            content = print_packet_content isprint content;
          })))))

  -- ETHERTYPE_IP: `size_ip` is four times the low half of the first byte.
  unfoldable pub handle_ip : (packet ip : Bytes) → (len : ℕ) → Run (Option Shown)
  unfolding show
  handle_ip packet ip len = reading (byte_at 0 ip) (λ first. reading (byte_at 9 ip) (λ protocol.
      if is_transport protocol
      then reading (copy_from 4 (skip 12 ip)) (λ source.
        reading (copy_from 4 (skip 16 ip))
          (λ target. show source target (skip (first % 16 * 4) ip) packet len))
      else returns none))

  -- ETHERTYPE_IPV6: `ip6_h + IP6_HDRLEN` moves the pointer by 40 structures of 40 bytes.
  unfoldable pub handle_ipv6 : (packet ip6 : Bytes) → (len : ℕ) → Run (Option Shown)
  unfolding show
  handle_ipv6 packet ip6 len = reading (copy_from 16 (skip 8 ip6)) (λ source.
      reading (copy_from 16 (skip 24 ip6)) (λ target. reading (byte_at 6 ip6) (λ protocol.
        if is_transport protocol
        then show source target (skip 1600 ip6) packet len
        else returns none)))

  unfoldable pub handle_ethernet : (packet : Bytes) → (len : ℕ) → Run (Option Shown)
  unfolding handle_ip handle_ipv6
  handle_ethernet packet len = reading (copy_from 2 (skip 12 packet)) (λ ether_type.
      if two_bytes ether_type == 2048
      then handle_ip packet (skip 14 packet) len
      else (if two_bytes ether_type == 34525
          then handle_ipv6 packet (skip 14 packet) len
          else returns none))

  -- `packet_counter` after the packet, and what is shown of it, nothing once `num` packets were shown.
  unfoldable pub packet_handler :
      (num : ℤ) (packet_counter : ℕ) (packet : Bytes) (len : ℕ) → ℕ × Run (Option Shown)
  unfolding handle_ethernet
  packet_handler num packet_counter packet len = (
    suc packet_counter,
    if not (eqb_ℤ num (negsuc 0)) && ltb_ℤ num (pos (suc packet_counter))
        then returns none
        else handle_ethernet packet len,
  )

  show_outside :
      (source target transport packet : Bytes) (len : ℕ)
      → length transport < 2
      → show source target transport packet len ≡ fault
  unfolding show
  show_outside source target transport packet len h = rw (copy_from_short 2 transport h, show) refl

  -- Of no IPv6 packet with less than 1602 bytes from its IPv6 header on the ports are shown.
  handle_ipv6_never :
      (packet ip6 : Bytes) (len : ℕ) (shown : Shown)
      → length ip6 < 1602
      → handle_ipv6 packet ip6 len ≢ returns (some shown)
  unfolding handle_ipv6
  handle_ipv6_never packet ip6 len shown h =
      reading_never {A = Bytes} (copy_from 16 (skip 8 ip6)) _ _ (λ source.
        reading_never {A = Bytes} (copy_from 16 (skip 24 ip6)) _ _ (λ target.
          reading_never {A = ℕ} (byte_at 6 ip6) _ _
            (λ protocol. branch (is_transport protocol) source target)))
    where
      outside : length (skip 1600 ip6) < 2
      outside = omega (arith, length-skip 1600 ip6, h)

      branch :
          (b : Bool) (source target : Bytes)
          → (if b then show source target (skip 1600 ip6) packet len else returns none)
            ≢ returns (some shown)
      branch true source target =
          rw (show_outside source target (skip 1600 ip6) packet len outside) (λ e. absurd cc)
      branch false source target = λ e. absurd cc
