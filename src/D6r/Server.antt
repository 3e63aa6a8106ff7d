-- ===== src/D6r/Server.antt =====
-- `process_msg_from_server`: a relay-reply of the server is unpacked and sent on to the client.
use school_projects.Base.{
  ℕ, suc, Bool, true, false, ◌&&◌, ◌||◌, Option, none, some, List, [], ◌∷◌, ◌++◌, length, ◌-◌, ltb,
  ◌==◌, if◌then◌else◌,
}
use school_projects.D6r.{
  Bytes, Text, skip, copy_from, Run, out_of_fuel, fault, stops, returns, view_option,
  option_relay_msg, option_interface_id,
}
use school_projects.D6r.Options.{walk}

-- `interface_name` and `relay_message` of the first loop.
pub record Found : Type 0 where
  pub interface_name : Bytes
  pub relay_message : Option Bytes

-- `interface_name` has room for 16 bytes.
abbrev pub no_name : Bytes
no_name = 0 ∷ 0 ∷ 0 ∷ 0 ∷ 0 ∷ 0 ∷ 0 ∷ 0 ∷ 0 ∷ 0 ∷ 0 ∷ 0 ∷ 0 ∷ 0 ∷ 0 ∷ 0 ∷ []

abbrev pub none_found : Found
none_found = record { interface_name = no_name; relay_message = none }

abbrev pub set_name : Found → Option Bytes → Option Found
set_name s none = none
set_name s (some name) =
    some (record s { interface_name = name ++ skip (length name) s.interface_name })

unfoldable pub note_message : (code len : ℕ) (option option_data : Bytes) → Found → Option Found
note_message code len option option_data s =
    if code == option_interface_id
    then (if ltb 16 len then none else set_name s (copy_from len option_data))
    else (if code == option_relay_msg
        then some (record s { relay_message = some option })
        else some s)

-- `interface_name[0] != '\0'`
abbrev pub named : Bytes → Bool
named [] = false
named (b ∷ bs) = ltb 0 b

abbrev pub is_some : {A : Type 0} → Option A → Bool
is_some none = false
is_some (some a) = true

unfoldable pub both_found : Found → Bool
both_found s = is_some s.relay_message && named s.interface_name

-- `address_option` of the second loop: OPTION_IA_NA, OPTION_IA_TA or OPTION_IA_PD.
unfoldable pub note_address :
    (code len : ℕ) (option option_data : Bytes) → Option Bytes → Option (Option Bytes)
note_address code len option option_data s =
    if code == 3 || code == 4 || code == 25 then some (some option) else some s

-- `added_ipv6` and `prefix` of the third loop: OPTION_IAADDR or OPTION_IAPREFIX.
pub record Added : Type 0 where
  pub added_ipv6 : Option Bytes
  pub prefix : ℕ

abbrev pub set_prefix : (option : Bytes) → Option Bytes → Option Added
set_prefix option (some (n ∷ bs)) = some (record { added_ipv6 = some (skip 13 option); prefix = n })
set_prefix option _ = none

unfoldable pub note_added : (code len : ℕ) (option option_data : Bytes) → Added → Option Added
note_added code len option option_data s =
    if code == 5
    then some (record s { added_ipv6 = some (skip 4 option) })
    else (if code == 26 then set_prefix option (copy_from 1 (skip 12 option)) else some s)

unfoldable pub address_found : Added → Bool
address_found s = is_some s.added_ipv6

abbrev pub first_byte : Bytes → ℕ
first_byte (b ∷ p) = b
first_byte [] = 0

-- What is left to do after a loop or a read.
abbrev pub after : {A B : Type 0} → Run A → (A → Run B) → Run B
after out_of_fuel k = out_of_fuel
after fault k = fault
after stops k = stops
after (returns a) k = k a

abbrev pub reading : {A B : Type 0} → Option A → (A → Run B) → Run B
reading none k = fault
reading (some a) k = k a

-- `mac_addr_map`, from addresses as texts to MAC addresses as texts.
abbrev pub MacMap : Type 0
MacMap = List (Text × Text)

abbrev pub same_text : Text → Text → Bool
same_text [] [] = true
same_text (a ∷ xs) (b ∷ ys) = a == b && same_text xs ys
same_text _ _ = false

abbrev pub find : MacMap → Text → Option Text
find [] key = none
find ((k, v) ∷ m) key = if same_text k key then some v else find m key

-- Where the message goes, what it is, and the string `output`, if it is built; it is built whether or not it is
-- written anywhere.
pub record Delivery : Type 0 where
  pub interface_name : Bytes
  pub address : Bytes
  pub payload : Bytes
  pub output : Option Text

-- `output` goes to the terminal with the option -d, and to the system log with -l.
pub record Written : Type 0 where
  pub terminal : List Text
  pub system_log : List Text

abbrev pub line_if : Bool → Option Text → List Text
line_if enabled none = []
line_if enabled (some output) = if enabled then output ∷ [] else []

abbrev pub written : (debug_enabled log_enabled : Bool) → Option Text → Written
written debug_enabled log_enabled output = record {
  terminal = line_if debug_enabled output;
  system_log = line_if log_enabled output;
}

module _ (inet_ntop : Bytes → Text) (to_string : ℕ → Text) (macs : MacMap) where
  -- `buffer` holds `length buffer` bytes, of which `read_count` were received.
  module _ (buffer : Bytes) (read_count : ℕ) where
    abbrev pub fuel : ℕ
    fuel = suc read_count

    abbrev pub offset : Bytes → ℕ
    offset p = length buffer - length p

    -- The string `output`: the address that the client got, `prefix`, and its MAC address.
    abbrev pub line : Added → Bytes → Text → Text
    line s address mac =
        inet_ntop address ++ (if ltb 0 s.prefix then 47 ∷ to_string s.prefix else []) ++ 44 ∷ mac

    unfoldable pub log_address : Added → Run (Option Text)
    log_address s = reading s.added_ipv6 (λ p. reading (copy_from 16 p) (λ address.
        reading (copy_from 16 (skip 18 buffer)) (λ peer.
          reading (find macs (inet_ntop peer)) (λ mac. returns (some (line s address mac))))))

    unfoldable pub log_option : Option Bytes → Run (Option Text)
    unfolding walk note_added address_found log_address
    log_option none = returns none
    log_option (some p) = reading (view_option p) (λ (code, len, rest).
        let q = skip (if code == 4 then 8 else 16) p in
        after
          (walk note_added address_found read_count fuel (offset q) q
            (record { added_ipv6 = none; prefix = 0 }))
          log_address)

    -- The additional processing for OPTION_REPLY, at the relay message, but for where `output` is written.
    unfoldable pub log_reply : (relay : Bytes) (msg_type : ℕ) → Run (Option Text)
    unfolding walk note_address log_option
    log_reply relay msg_type =
        if msg_type == 7
        then after
            (walk note_address is_some read_count fuel (offset (skip 8 relay)) (skip 8 relay) none)
            log_option
        else returns none

    unfoldable pub deliver : Bytes → Bytes → Run Delivery
    unfolding log_reply
    deliver name relay = reading (view_option relay) (λ (code, len, payload).
        reading (copy_from 1 payload) (λ first. after (log_reply relay (first_byte first)) (λ log.
          reading (copy_from 16 (skip 18 buffer)) (λ peer.
            reading (copy_from len payload) (λ message. returns (record {
              interface_name = name;
              address = peer;
              payload = message;
              output = log;
            }))))))

    -- Without a relay message the program ends.
    unfoldable pub process_relay : (name : Bytes) → Option Bytes → Run Delivery
    unfolding deliver
    process_relay name none = stops
    process_relay name (some relay) = deliver name relay

    abbrev pub process_options : Found → Run Delivery
    process_options s = process_relay s.interface_name s.relay_message

    unfoldable pub process_msg_from_server : Run Delivery
    unfolding walk note_message both_found process_relay
    process_msg_from_server = reading (copy_from 1 buffer) (λ first.
        if same_text first (13 ∷ [])
        then after (walk note_message both_found read_count fuel 34 (skip 34 buffer) none_found)
            process_options
        else stops)

    -- The whole function with the options of the command line: what is sent and what is written.
    unfoldable pub process_and_write : (debug_enabled log_enabled : Bool) → Run (Delivery × Written)
    unfolding process_msg_from_server
    process_and_write debug_enabled log_enabled =
        after process_msg_from_server (λ d. returns (d, written debug_enabled log_enabled d.output))
