-- ===== src/D6r/Answer.antt =====
-- What a relay makes of the server's answer to a forwarded message.
use school_projects.Base.{
  ℕ, ◌+◌, ◌≤◌, ◌<◌, ◌≡◌, ◌≢◌, refl, sym, ◌∙◌, ap, subst, arith, true, none, some, List, [], ◌∷◌,
  ◌++◌, length, length-append, ltb,
}
use school_projects.D6r.{Bytes, Text, returns}
use school_projects.D6r.Client.{encode_option}
use school_projects.D6r.Server.{MacMap, no_name, Delivery, process_msg_from_server}
use school_projects.D6r.Scan.{encode_options, Fits, scan, overwrite}
use school_projects.D6r.Reply.{relay_reply, Plain, delivered, process_msg_from_server_lem}

-- The options of a relay-reply that names the interface of a client and holds a message for it, in both orders.
abbrev pub interface_first : (name payload : Bytes) → List (ℕ × Bytes)
interface_first name payload = (18, name) ∷ (9, payload) ∷ []

abbrev pub message_first : (name payload : Bytes) → List (ℕ × Bytes)
message_first name payload = (9, payload) ∷ (18, name) ∷ []

pub interface_first-Fits :
    (name payload : Bytes)
    → length name ≤ 16
    → length payload < 65536
    → Fits (interface_first name payload)
interface_first-Fits name payload short size = (
  omega arith,
  omega (arith, short),
  (λ e. short),
  (omega arith, size, (λ e. absurd (omega (arith, e))), tt),
)

message_first-Fits :
    (name payload : Bytes)
    → length name ≤ 16
    → length payload < 65536
    → Fits (message_first name payload)
message_first-Fits name payload short size = (
  omega arith,
  size,
  (λ e. absurd (omega (arith, e))),
  (omega arith, omega (arith, short), (λ e. short), tt),
)

pub interface_first-length :
    (name payload : Bytes)
    → length (encode_options (interface_first name payload)) ≡ 8 + length name + length payload
interface_first-length name payload = omega (
  arith,
  length-append (encode_option 18 name) (encode_option 9 payload ++ []),
  length-append (encode_option 9 payload) [],
)

message_first-length :
    (name payload : Bytes)
    → length (encode_options (message_first name payload)) ≡ 8 + length name + length payload
message_first-length name payload = omega (
  arith,
  length-append (encode_option 9 payload) (encode_option 18 name ++ []),
  length-append (encode_option 18 name) [],
)

-- What is sent to the client, without a line for the log.
abbrev pub plain_delivery : (name peer payload : Bytes) → Delivery
plain_delivery name peer payload = record {
  interface_name = overwrite no_name name;
  address = peer;
  payload = payload;
  output = none;
}

module _ (inet_ntop : Bytes → Text) (to_string : ℕ → Text) (macs : MacMap) where
  -- A message for a client, sent by the server with the peer address and the interface of the client's forwarded
  -- message, goes to that client over that interface, in either order of the options and whatever follows in the
  -- buffer; the name has 1 to 16 characters, and the message is no REPLY.
  pub reply_returns :
      (hops : ℕ) (link peer : Bytes) (c : ℕ) (cs : Bytes) (msg_type : ℕ) (message tail : Bytes)
      (read_count : ℕ)
      → length link ≡ 16
      → length peer ≡ 16
      → length (c ∷ cs) ≤ 16
      → c ≢ 0
      → length (msg_type ∷ message) < 65536
      → msg_type ≢ 7
      → read_count ≡ 42 + length (c ∷ cs) + length (msg_type ∷ message)
      → (process_msg_from_server inet_ntop to_string macs
            (relay_reply hops link peer (interface_first (c ∷ cs) (msg_type ∷ message)) tail)
            read_count
          ≡ returns (plain_delivery (c ∷ cs) peer (msg_type ∷ message)))
        × (process_msg_from_server inet_ntop to_string macs
              (relay_reply hops link peer (message_first (c ∷ cs) (msg_type ∷ message)) tail)
              read_count
            ≡ returns (plain_delivery (c ∷ cs) peer (msg_type ∷ message)))
  reply_returns hops link peer c cs msg_type message tail read_count l p short named size plain
        end =
      let name = c ∷ cs in
      let payload = msg_type ∷ message in
      let starts : ltb 0 c ≡ true = ground (arith, named) in
      let found : scan (interface_first name payload) no_name none
          ≡ (overwrite no_name name, some payload) =
        rw starts refl in
      let found' : scan (message_first name payload) no_name none
          ≡ (overwrite no_name name, some payload) =
        rw starts refl in
      (
        process_msg_from_server_lem inet_ntop to_string macs hops link peer
              (interface_first name payload) tail l p read_count
              (interface_first-Fits name payload short size) (λ e. absurd cc)
              (omega (arith, end, interface_first-length name payload))
              (subst (λ f. Plain f.1) (sym found) plain)
            ∙ ap (delivered peer) found,
        process_msg_from_server_lem inet_ntop to_string macs hops link peer
              (message_first name payload) tail l p read_count
              (message_first-Fits name payload short size) (λ e. absurd cc)
              (omega (arith, end, message_first-length name payload))
              (subst (λ f. Plain f.1) (sym found') plain)
            ∙ ap (delivered peer) found',
      )
