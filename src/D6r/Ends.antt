-- ===== src/D6r/Ends.antt =====
-- The loops of `process_msg_from_server` end on every message.
use school_projects.Base.{
  ℕ, suc, ◌≢◌, refl, arith, Bool, true, false, Option, none, some, ◌==◌, if◌then◌else◌, [], ◌∷◌,
}
use school_projects.D6r.{
  Bytes, Text, Run, out_of_fuel, fault, stops, returns, skip, copy_from, view_option,
}
use school_projects.D6r.Options.{walk, walk_ends}
use school_projects.D6r.Server.{
  MacMap, Delivery, Found, Added, after, reading, log_address, log_option, log_reply, deliver,
  process_relay, process_msg_from_server, find, line, note_address, note_added, address_found,
  note_message, both_found, none_found, offset, is_some, same_text, first_byte,
}

after_ends :
    {A B : Type 0} (r : Run A) (k : A → Run B)
    → r ≢ out_of_fuel
    → ((a : A) → k a ≢ out_of_fuel)
    → after r k ≢ out_of_fuel
after_ends out_of_fuel k h g = absurd (h refl)
after_ends fault k h g = λ e. absurd cc
after_ends stops k h g = λ e. absurd cc
after_ends (returns a) k h g = g a

reading_ends :
    {A B : Type 0} (o : Option A) (k : A → Run B)
    → ((a : A) → k a ≢ out_of_fuel)
    → reading o k ≢ out_of_fuel
reading_ends none k g = λ e. absurd cc
reading_ends (some a) k g = g a

if_ends :
    {A : Type 0} (b : Bool) (r r' : Run A)
    → r ≢ out_of_fuel
    → r' ≢ out_of_fuel
    → (if b then r else r') ≢ out_of_fuel
if_ends true r r' h k = h
if_ends false r r' h k = k

returns_ends : {A : Type 0} (a : A) → returns a ≢ out_of_fuel
returns_ends a e = absurd cc

module _ (inet_ntop : Bytes → Text) (to_string : ℕ → Text) (macs : MacMap) (buffer : Bytes)
    (read_count : ℕ) where
  log_address_ends :
      (s : Added) → log_address inet_ntop to_string macs buffer read_count s ≢ out_of_fuel
  unfolding log_address
  log_address_ends s = reading_ends s.added_ipv6 _ (λ p.
      reading_ends {A = Bytes} (copy_from 16 p) _ (λ address.
        reading_ends {A = Bytes} (copy_from 16 (skip 18 buffer)) _ (λ peer.
          reading_ends {A = Text} (find macs (inet_ntop peer)) _ (λ mac.
            returns_ends (some (line inet_ntop to_string macs buffer read_count s address mac))))))

  log_option_ends :
      (o : Option Bytes) → log_option inet_ntop to_string macs buffer read_count o ≢ out_of_fuel
  unfolding log_option
  log_option_ends none = returns_ends _
  log_option_ends (some p) =
      reading_ends {A = ℕ × ℕ × Bytes} (view_option p) _ (λ (code, len, rest).
        let q = skip (if code == 4 then 8 else 16) p in
        after_ends {A = Added}
          (walk note_added address_found read_count (suc read_count)
            (offset inet_ntop to_string macs buffer read_count q) q
            (record { added_ipv6 = none; prefix = 0 }))
          _
          (walk_ends note_added address_found read_count (suc read_count) _ q _ (omega arith)
            (omega arith))
          log_address_ends)

  log_reply_ends :
      (relay : Bytes) (t : ℕ)
      → log_reply inet_ntop to_string macs buffer read_count relay t ≢ out_of_fuel
  unfolding log_reply
  log_reply_ends relay t =
      if_ends (t == 7) _ _
        (after_ends {A = Option Bytes}
          (walk note_address is_some read_count (suc read_count)
            (offset inet_ntop to_string macs buffer read_count (skip 8 relay)) (skip 8 relay) none)
          _
          (walk_ends note_address is_some read_count (suc read_count) _ (skip 8 relay) _
            (omega arith) (omega arith))
          log_option_ends)
        (returns_ends _)

  deliver_ends :
      (name relay : Bytes)
      → deliver inet_ntop to_string macs buffer read_count name relay ≢ out_of_fuel
  unfolding deliver
  deliver_ends name relay =
      reading_ends {A = ℕ × ℕ × Bytes} (view_option relay) _ (λ (code, len, payload).
        reading_ends {A = Bytes} (copy_from 1 payload) _ (λ first.
          after_ends {A = Option Text}
            (log_reply inet_ntop to_string macs buffer read_count relay (first_byte first)) _
            (log_reply_ends relay (first_byte first))
            (λ log. reading_ends {A = Bytes} (copy_from 16 (skip 18 buffer)) _ (λ peer.
              reading_ends {A = Bytes} (copy_from len payload) _ (λ message. returns_ends (record {
                interface_name = name;
                address = peer;
                payload = message;
                output = log;
              }))))))

  process_relay_ends :
      (name : Bytes) (o : Option Bytes)
      → process_relay inet_ntop to_string macs buffer read_count name o ≢ out_of_fuel
  unfolding process_relay
  process_relay_ends name none = λ e. absurd cc
  process_relay_ends name (some relay) = deliver_ends name relay

  -- Whatever the buffer holds, and however much of it was received, the loops over its options end.
  pub process_msg_from_server_ends :
      process_msg_from_server inet_ntop to_string macs buffer read_count ≢ out_of_fuel
  unfolding process_msg_from_server
  process_msg_from_server_ends = reading_ends {A = Bytes} (copy_from 1 buffer) _ (λ first.
      if_ends {A = Delivery} (same_text first (13 ∷ [])) _ stops
        (after_ends {A = Found}
          (walk note_message both_found read_count (suc read_count) 34 (skip 34 buffer) none_found)
          _
          (walk_ends note_message both_found read_count (suc read_count) 34 (skip 34 buffer)
            none_found (omega arith) (omega arith))
          (λ s. process_relay_ends s.interface_name s.relay_message))
        (λ e. absurd cc))
