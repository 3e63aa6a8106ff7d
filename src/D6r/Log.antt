-- ===== src/D6r/Log.antt =====
-- The additional processing of a REPLY: the address that the client gets, for the log.
use school_projects.Base.{
  ℕ, suc, ◌<◌, ◌≡◌, refl, ◌∙◌, ap, arith, Bool, true, false, ◌||◌, none, some, ◌∷◌, ◌++◌, length,
  append_assoc, append-nil, ◌-◌,
}
use school_projects.D6r.{Bytes, Text, skip, copy_from, returns}
use school_projects.D6r.Options.{walk, walk_last}
use school_projects.D6r.Client.{encode_option}
use school_projects.D6r.Server.{
  MacMap, find, is_some, note_address, note_added, address_found, log_address, log_option,
  log_reply, after,
}
use school_projects.D6r.Reply.{peer_copied}
use school_projects.D6r.Wire.{skip-append, copy_from-append, view_option-encode}

or_true : (b c : Bool) → c ≡ true → (b || c) ≡ true
or_true false c h = h
or_true true c h = refl

-- An IA address option with the address and what follows it, and an IA_NA option with its 12 bytes of fields
-- and that address first.
abbrev pub ia_address : (address lifetimes : Bytes) → Bytes
ia_address address lifetimes = encode_option 5 (address ++ lifetimes)

abbrev pub ia_na : (fields address lifetimes others : Bytes) → Bytes
ia_na fields address lifetimes others =
    encode_option 3 (fields ++ (ia_address address lifetimes ++ others))

-- A REPLY: its type, its transaction, and its options, of which the IA_NA is first.
abbrev pub reply_message : (transaction fields address lifetimes others more : Bytes) → Bytes
reply_message transaction fields address lifetimes others more =
    7 ∷ (transaction ++ (ia_na fields address lifetimes others ++ more))

-- At an address option both loops stop, wherever the message ends.
walk-ia_na :
    (read_count k i : ℕ) (content rest : Bytes)
    → length content < 65536
    → walk note_address is_some read_count (suc k) i (encode_option 3 content ++ rest) none
      ≡ returns (some (encode_option 3 content ++ rest))
unfolding note_address
walk-ia_na read_count k i content rest short =
    walk_last note_address is_some read_count k i
      (view_option-encode 3 content rest (omega arith) short) refl (or_true _ true refl)

walk-ia_address :
    (read_count k i : ℕ) (content rest : Bytes)
    → length content < 65536
    → walk note_added address_found read_count
        (suc k)
        i
        (encode_option 5 content ++ rest)
        (record { added_ipv6 = none; prefix = 0 })
      ≡ returns (record { added_ipv6 = some (content ++ rest); prefix = 0 })
unfolding note_added address_found
walk-ia_address read_count k i content rest short =
    walk_last note_added address_found read_count k i
      (view_option-encode 5 content rest (omega arith) short) refl (or_true _ true refl)

module _ (inet_ntop : Bytes → Text) (to_string : ℕ → Text) (macs : MacMap) (buffer : Bytes)
    (read_count : ℕ) (address : Bytes) (a : length address ≡ 16) {peer mac : Bytes}
    (peer_copied : copy_from 16 (skip 18 buffer) ≡ some peer)
    (known : find macs (inet_ntop peer) ≡ some mac) where
  log_address_lem :
      (rest : Bytes)
      → log_address inet_ntop to_string macs buffer read_count
          (record { added_ipv6 = some (address ++ rest); prefix = 0 })
        ≡ returns (some (inet_ntop address ++ 44 ∷ mac))
  unfolding log_address
  log_address_lem rest = rw (copy_from-append 16 address rest a) (
      rw peer_copied
        (rw known (ap (λ r. returns (some (r ++ 44 ∷ mac))) (append-nil (inet_ntop address)))))

  log_option_lem :
      (fields lifetimes others rest : Bytes)
      → length fields ≡ 12
      → length (address ++ lifetimes) < 65536
      → length (fields ++ (ia_address address lifetimes ++ others)) < 65536
      → log_option inet_ntop to_string macs buffer read_count
          (some (ia_na fields address lifetimes others ++ rest))
        ≡ returns (some (inet_ntop address ++ 44 ∷ mac))
  unfolding log_option
  log_option_lem fields lifetimes others rest f short' short =
      let more = others ++ rest in
      let at : skip 12 ((fields ++ (ia_address address lifetimes ++ others)) ++ rest)
          ≡ ia_address address lifetimes ++ more =
        ap (skip 12) (append_assoc fields (ia_address address lifetimes ++ others) rest)
        ∙ skip-append 12 fields _ f
        ∙ append_assoc (ia_address address lifetimes) others rest in
      ap
        (λ q.
          after
            (walk note_added address_found read_count (suc read_count) (length buffer - length q) q
              (record { added_ipv6 = none; prefix = 0 }))
            (log_address inet_ntop to_string macs buffer read_count))
        at
      ∙ ap (λ r. after r (log_address inet_ntop to_string macs buffer read_count))
          (walk-ia_address read_count read_count _ (address ++ lifetimes) more short')
      ∙ ap
          (λ p.
            log_address inet_ntop to_string macs buffer read_count
              (record { added_ipv6 = some p; prefix = 0 }))
          (append_assoc address lifetimes more)
      ∙ log_address_lem (lifetimes ++ more)

  pub log_reply_lem :
      (transaction fields lifetimes others more tail : Bytes)
      → length transaction ≡ 3
      → length fields ≡ 12
      → length (address ++ lifetimes) < 65536
      → length (fields ++ (ia_address address lifetimes ++ others)) < 65536
      → log_reply inet_ntop to_string macs buffer read_count
          (encode_option 9 (reply_message transaction fields address lifetimes others more) ++ tail)
          7
        ≡ returns (some (inet_ntop address ++ 44 ∷ mac))
  unfolding log_reply
  log_reply_lem transaction fields lifetimes others more tail t f short' short =
      let option = ia_na fields address lifetimes others in
      let at : skip 3 ((transaction ++ (option ++ more)) ++ tail) ≡ option ++ (more ++ tail) =
        ap (skip 3) (append_assoc transaction (option ++ more) tail)
        ∙ skip-append 3 transaction _ t
        ∙ append_assoc option more tail in
      ap
        (λ q.
          after
            (walk note_address is_some read_count (suc read_count) (length buffer - length q) q
              none)
            (log_option inet_ntop to_string macs buffer read_count))
        at
      ∙ ap (λ r. after r (log_option inet_ntop to_string macs buffer read_count))
          (walk-ia_na read_count read_count _ (fields ++ (ia_address address lifetimes ++ others))
            (more ++ tail) short)
      ∙ log_option_lem fields lifetimes others (more ++ tail) f short' short
