-- ===== src/D6r/Reply.antt =====
-- What `process_msg_from_server` does with a relay-reply that is made of options.
use school_projects.Base.{
  ℕ, suc, ◌+◌, ◌≤◌, ◌<◌, ◌≡◌, ◌≢◌, refl, ◌∙◌, ap, subst, arith, false, Option, none, some, List, [],
  ◌∷◌, ◌++◌, length, length-append, ◌==◌,
}
use school_projects.D6r.{Bytes, Text, skip, copy_from, Run, stops, returns}
use school_projects.D6r.Options.{walk}
use school_projects.D6r.Client.{encode_option}
use school_projects.D6r.Server.{
  no_name, none_found, note_message, both_found, MacMap, Delivery, log_reply, deliver,
  process_options, process_relay, process_msg_from_server,
}
use school_projects.D6r.Wire.{skip-append, skip-append_more, copy_from-append, ntohs-htons}
use school_projects.D6r.Scan.{encode_options, Fits, scan, Points, Finds, walk-scan}

-- A relay-reply, and what follows it in the buffer.
abbrev pub relay_reply : (hops : ℕ) (link peer : Bytes) → List (ℕ × Bytes) → (tail : Bytes) → Bytes
relay_reply hops link peer os tail = 13 ∷ hops ∷ (link ++ (peer ++ (encode_options os ++ tail)))

-- The message has a type, which is not that of a REPLY.
abbrev pub Plain : Option Bytes → Type 0
Plain none = Unit
Plain (some []) = ⊥
Plain (some (t ∷ bs)) = t ≢ 7

-- Without a relay message the program ends; with one, its content goes to the peer.
abbrev pub delivered : (peer : Bytes) → Bytes × Option Bytes → Run Delivery
delivered peer (name, none) = stops
delivered peer (name, some payload) =
    returns (record { interface_name = name; address = peer; payload = payload; output = none })

length-encode_options : (os : List (ℕ × Bytes)) → length os ≤ length (encode_options os)
length-encode_options [] = omega arith
length-encode_options ((code, content) ∷ os) = omega (
  arith,
  length-append (encode_option code content) (encode_options os),
  length-encode_options os,
)

module _ (inet_ntop : Bytes → Text) (to_string : ℕ → Text) (macs : MacMap) where
  module _ (hops : ℕ) (link peer : Bytes) (os : List (ℕ × Bytes)) (tail : Bytes)
      (link_length : length link ≡ 16) (peer_length : length peer ≡ 16) where
    abbrev buffer : Bytes
    buffer = relay_reply hops link peer os tail

    skip_link : skip 18 buffer ≡ peer ++ (encode_options os ++ tail)
    skip_link = skip-append 16 link _ link_length

    skip_peer : skip 34 buffer ≡ encode_options os ++ tail
    skip_peer =
        skip-append_more 16 16 32 link _ link_length refl ∙ skip-append 16 peer _ peer_length

    pub peer_copied : copy_from 16 (skip 18 buffer) ≡ some peer
    peer_copied = ap (copy_from 16) skip_link ∙ copy_from-append 16 peer _ peer_length

    -- A relay message goes to the peer, if what is logged of it is known.
    deliver_lem :
        (read_count : ℕ) (name : Bytes) (t : ℕ) (bs rest : Bytes) (log : Option Text)
        → length (t ∷ bs) < 65536
        → log_reply inet_ntop to_string macs buffer read_count (encode_option 9 (t ∷ bs) ++ rest) t
          ≡ returns log
        → deliver inet_ntop to_string macs buffer read_count name (encode_option 9 (t ∷ bs) ++ rest)
          ≡ returns
              (record { interface_name = name; address = peer; payload = t ∷ bs; output = log })
    unfolding deliver
    deliver_lem read_count name t bs rest log short logged =
        let size = ntohs-htons (length (t ∷ bs)) short in
        rw size (rw logged (rw peer_copied (rw (copy_from-append (length bs) bs rest refl) refl)))

    log_reply_other :
        (read_count : ℕ) (relay : Bytes) (t : ℕ)
        → t ≢ 7
        → log_reply inet_ntop to_string macs buffer read_count relay t ≡ returns none
    unfolding log_reply
    log_reply_other read_count relay t other =
        let apart : (t == 7) ≡ false = ground (arith, other) in rw apart refl

    process_options_lem :
        (read_count : ℕ) (name : Bytes) (q relay : Option Bytes)
        → Points q relay
        → Plain relay
        → process_options inet_ntop to_string macs buffer read_count
            (record { interface_name = name; relay_message = q })
          ≡ delivered peer (name, relay)
    unfolding process_relay
    process_options_lem read_count name none none v plain = refl
    process_options_lem read_count name none (some c) v plain = elim v [ ]
    process_options_lem read_count name (some p) none v plain = elim v [ ]
    process_options_lem read_count name (some p) (some []) v plain = elim plain [ ]
    process_options_lem read_count name (some p) (some (t ∷ bs)) (short, (rest, shape)) plain =
        rw shape (
          deliver_lem read_count name t bs rest none short
            (log_reply_other read_count (encode_option 9 (t ∷ bs) ++ rest) t plain))

    logged_options_lem :
        (read_count : ℕ) (name : Bytes) (q : Option Bytes) (t : ℕ) (bs : Bytes) (log : Option Text)
        → Points q (some (t ∷ bs))
        → ((rest : Bytes)
            → log_reply inet_ntop to_string macs buffer read_count
                (encode_option 9 (t ∷ bs) ++ rest)
                t
              ≡ returns log)
        → process_options inet_ntop to_string macs buffer read_count
            (record { interface_name = name; relay_message = q })
          ≡ returns
              (record { interface_name = name; address = peer; payload = t ∷ bs; output = log })
    unfolding process_relay
    logged_options_lem read_count name none t bs log v logged = elim v [ ]
    logged_options_lem read_count name (some p) t bs log (short, (rest, shape)) logged =
        rw shape (deliver_lem read_count name t bs rest log short (logged rest))

    module _ (read_count : ℕ) (fits : Fits os) (ne : os ≢ [])
        (end : read_count ≡ 34 + length (encode_options os)) where
      options_found :
          Finds
            (walk note_message both_found read_count
              (suc read_count)
              34
              (encode_options os ++ tail)
              none_found)
            (scan os no_name none)
      options_found =
          walk-scan os (suc read_count) 34 read_count tail none_found none fits ne end
            (omega (arith, length-encode_options os, end)) tt

      -- A relay-reply with two addresses of 16 bytes and at least one option, whose codes and lengths have 16 bits,
      -- and which ends with its last option. No interface id is longer than 16 bytes, and the relay
      -- message, if there is one, is not empty and not a REPLY. Then the content of the relay message goes to
      -- the peer over the interface that the options name, and without a relay message the program ends.
      pub process_msg_from_server_lem :
          Plain (scan os no_name none).1
          → process_msg_from_server inet_ntop to_string macs buffer read_count
            ≡ delivered peer (scan os no_name none)
      unfolding process_msg_from_server
      process_msg_from_server_lem plain =
          let (q, found, points) = options_found in
          rw skip_peer (rw found (process_options_lem read_count _ q _ points plain))

      pub process_msg_from_server_logged :
          (name : Bytes) (t : ℕ) (bs : Bytes) (log : Option Text)
          → scan os no_name none ≡ (name, some (t ∷ bs))
          → ((rest : Bytes)
              → log_reply inet_ntop to_string macs buffer read_count
                  (encode_option 9 (t ∷ bs) ++ rest)
                  t
                ≡ returns log)
          → process_msg_from_server inet_ntop to_string macs buffer read_count
            ≡ returns
                (record { interface_name = name; address = peer; payload = t ∷ bs; output = log })
      unfolding process_msg_from_server
      process_msg_from_server_logged name t bs log all logged =
          let (q, found, points) = subst (Finds _) all options_found in
          rw skip_peer (rw found (logged_options_lem read_count name q t bs log points logged))
