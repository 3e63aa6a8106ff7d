-- ===== src/D6r/ReadBack.antt =====
-- A forwarded message, read with the loop that reads the server's answers.
use school_projects.Base.{
  ℕ, ◌+◌, ◌≤◌, ◌<◌, ◌≡◌, ◌≢◌, refl, sym, ◌∙◌, ap, subst, arith, true, none, some, List, [], ◌∷◌,
  ◌++◌, length, length-append, append-nil, ltb,
}
use school_projects.D6r.{Bytes, skip, copy_from, htons}
use school_projects.D6r.Client.{encode_option, forward_message}
use school_projects.D6r.Server.{none_found, note_message, both_found, no_name}
use school_projects.D6r.Options.{walk}
use school_projects.D6r.Wire.{skip-append, skip-append_more, copy_from-append}
use school_projects.D6r.Scan.{Finds, walk-scan, encode_options, Fits, scan, overwrite}
use school_projects.D6r.Forward.{forward_message-length}

-- The options of a forwarded message.
abbrev forwarded_options : (payload mac name : Bytes) → List (ℕ × Bytes)
forwarded_options payload mac name = (9, payload) ∷ (79, htons 1 ++ mac) ∷ (18, name) ∷ []

module _ (payload mac name : Bytes) where
  forwarded_options-Fits :
      length mac ≡ 6
      → length payload < 65536
      → length name ≤ 16
      → Fits (forwarded_options payload mac name)
  forwarded_options-Fits m size short = (
    omega arith,
    size,
    (λ e. absurd (omega (arith, e))),
    (
      omega arith,
      omega (arith, m),
      (λ e. absurd (omega (arith, e))),
      (omega arith, omega (arith, short), (λ e. short), tt),
    ),
  )

  forwarded_options-encode :
      encode_options (forwarded_options payload mac name) ++ []
      ≡ encode_option 9 payload ++ (encode_option 79 (htons 1 ++ mac) ++ encode_option 18 name)
  forwarded_options-encode =
      append-nil (encode_options (forwarded_options payload mac name))
      ∙ ap (λ r. encode_option 9 payload ++ (encode_option 79 (htons 1 ++ mac) ++ r))
          (append-nil (encode_option 18 name))

  forwarded_options-length :
      length (encode_options (forwarded_options payload mac name))
      ≡ 14 + length payload + length mac + length name
  forwarded_options-length =
      let last = encode_option 18 name ++ [] in
      omega (
        arith,
        length-append (encode_option 9 payload) (encode_option 79 (htons 1 ++ mac) ++ last),
        length-append (encode_option 79 (htons 1 ++ mac)) last,
        length-append (encode_option 18 name) [],
      )

-- What the first loop of `process_msg_from_server` reads in a forwarded message are its addresses, the message of the
-- client, and the name of the interface, which has 1 to 16 characters; other than a server's answer, it also
-- has the MAC address among its options.
pub forward_reads_back :
    (link peer payload mac : Bytes) (c : ℕ) (cs : Bytes) (read_count : ℕ)
    → length link ≡ 16
    → length peer ≡ 16
    → length mac ≡ 6
    → length payload < 65536
    → length (c ∷ cs) ≤ 16
    → c ≢ 0
    → read_count ≡ length (forward_message link peer payload mac (c ∷ cs))
    → (copy_from 16 (skip 2 (forward_message link peer payload mac (c ∷ cs))) ≡ some link)
      × (copy_from 16 (skip 18 (forward_message link peer payload mac (c ∷ cs))) ≡ some peer)
      × Finds
          (walk note_message both_found read_count read_count 34
            (skip 34 (forward_message link peer payload mac (c ∷ cs)))
            none_found)
          (overwrite no_name (c ∷ cs), some payload)
unfolding forward_message
forward_reads_back link peer payload mac c cs read_count l p m size short named end =
    let name = c ∷ cs in
    let os = forwarded_options payload mac name in
    let starts : ltb 0 c ≡ true = ground (arith, named) in
    let found : scan os no_name none ≡ (overwrite no_name name, some payload) = rw starts refl in
    let at : skip 34 (forward_message link peer payload mac name) ≡ encode_options os ++ [] =
      skip-append_more 16 16 32 link _ l refl
      ∙ skip-append 16 peer _ p
      ∙ sym (forwarded_options-encode payload mac name) in
    let whole = forward_message-length link peer payload mac name l p m in
    (
      copy_from-append 16 link _ l,
      ap (copy_from 16) (skip-append 16 link _ l) ∙ copy_from-append 16 peer _ p,
      subst
          (λ q.
            Finds (walk note_message both_found read_count read_count 34 q none_found)
              (overwrite no_name name, some payload))
          (sym at)
          (subst (Finds _) found (
            walk-scan os read_count 34 read_count [] none_found none
              (forwarded_options-Fits payload mac name m size short) (λ e. absurd cc)
              (omega (arith, end, whole, m, forwarded_options-length payload mac name))
              (omega (arith, end, whole)) tt)),
    )
