-- ===== src/Sniffer/Content.antt =====
-- What `print_packet_content` shows of a packet.
use school_projects.Base.{
  ℕ, suc, Bool, ◌+◌, ◌*◌, ◌%◌, ◌≤◌, ◌<◌, ◌≡◌, refl, sym, ◌∙◌, ap, arith, false, true, List, [], ◌∷◌,
  ◌++◌, append-nil, append_assoc, map, length, ◌==◌,
}
use school_projects.Sniffer.{
  Text, Printed, characters, offset, hex, shown, print_loop, print_packet_content,
}

-- The bytes of a packet, by rows: all but the last one have 16 bytes.
abbrev pub joined : (rows : List Text) → (last : Text) → Text
joined [] last = last
joined (row ∷ rows) last = row ++ joined rows last

abbrev pub AllFull : List Text → Type 0
AllFull [] = Unit
AllFull (row ∷ rows) = (length row ≡ 16) × AllFull rows

module _ (isprint : ℕ → Bool) where
  -- A row at the offset `i`: the characters of the row before, the offset, and the bytes.
  abbrev pub layout_row : (i : ℕ) → (before row : Text) → List Printed
  layout_row i before row = characters (map (shown isprint) before) ∷ offset i ∷ map hex row

  abbrev pub layout : (i : ℕ) → (before : Text) → (rows : List Text) → (last : Text) → List Printed
  layout i before [] last = layout_row i before last
  layout i before (row ∷ rows) last = layout_row i before row ++ layout (i + 16) row rows last

  -- The rest of a row, from its byte `k` on.
  rest_of_row :
      (q k i : ℕ) (row packet content : Text)
      → i ≡ 16 * q + suc k
      → k + length row ≤ 15
      → print_loop isprint i (row ++ packet) content
        ≡ map hex row
          ++ print_loop isprint (i + length row) packet (content ++ map (shown isprint) row)
  unfolding print_loop
  rest_of_row q k i [] packet content at fits =
      let same : i ≡ i + 0 = omega arith in
      ap (λ n. print_loop isprint n packet content) same
      ∙ ap (print_loop isprint (i + 0) packet) (sym (append-nil content))
  rest_of_row q k i (b ∷ row) packet content at fits =
      let within : (i % 16 == 0) ≡ false = ground (arith, at, fits) in
      let next : suc i + length row ≡ i + suc (length row) = omega arith in
      let later =
        rest_of_row q (suc k) (suc i) row packet (content ++ shown isprint b ∷ [])
          (omega (arith, at)) (omega (arith, fits)) in
      rw within (
        ap (λ r. hex b ∷ r)
          (later
            ∙ ap (λ c. map hex row ++ print_loop isprint (suc i + length row) packet c)
                (append_assoc content (shown isprint b ∷ []) (map (shown isprint) row))
            ∙ ap
                (λ n.
                  map hex row
                  ++ print_loop isprint n packet
                      (content ++ shown isprint b ∷ map (shown isprint) row))
                next))

  whole_row :
      (q : ℕ) (row packet before : Text)
      → 0 < length row
      → length row ≤ 16
      → print_loop isprint (16 * q) (row ++ packet) (map (shown isprint) before)
        ≡ layout_row (16 * q) before row
          ++ print_loop isprint (16 * q + length row) packet (map (shown isprint) row)
  unfolding print_loop
  whole_row q [] packet before some_bytes fits = absurd (omega arith)
  whole_row q (b ∷ row) packet before some_bytes fits =
      let begins : (16 * q % 16 == 0) ≡ true = ground arith in
      let next : suc (16 * q) + length row ≡ 16 * q + suc (length row) = omega arith in
      rw begins (
        ap (λ r. characters (map (shown isprint) before) ∷ offset (16 * q) ∷ hex b ∷ r)
          (rest_of_row q 0 (suc (16 * q)) row packet (shown isprint b ∷ []) (omega arith)
              (omega (arith, fits))
            ∙ ap
                (λ n.
                  map hex row
                  ++ print_loop isprint n packet (shown isprint b ∷ map (shown isprint) row))
                next))

  all_rows :
      (q : ℕ) (rows : List Text) (last before : Text)
      → AllFull rows
      → 0 < length last
      → length last ≤ 16
      → print_loop isprint (16 * q) (joined rows last) (map (shown isprint) before)
        ≡ layout (16 * q) before rows last
  unfolding print_loop
  all_rows q [] last before full some_bytes fits =
      ap (λ p. print_loop isprint (16 * q) p (map (shown isprint) before)) (sym (append-nil last))
      ∙ whole_row q last [] before some_bytes fits
      ∙ append-nil (layout_row (16 * q) before last)
  all_rows q (row ∷ rows) last before (size, full) some_bytes fits =
      let next : 16 * q + length row ≡ 16 * suc q = omega (arith, size) in
      let up : 16 * suc q ≡ 16 * q + 16 = omega arith in
      whole_row q row (joined rows last) before (omega (arith, size)) (omega (arith, size))
      ∙ ap
          (λ n.
            layout_row (16 * q) before row
            ++ print_loop isprint n (joined rows last) (map (shown isprint) row))
          next
      ∙ ap (λ r. layout_row (16 * q) before row ++ r)
          (all_rows (suc q) rows last row full some_bytes fits)
      ∙ ap (λ n. layout_row (16 * q) before row ++ layout n row rows last) up

  -- A packet is printed by rows of 16 bytes, with 1 to 16 in the last one: of each row the offset and all bytes in
  -- order, behind the characters of the row before, where a dot stands for those that cannot be printed.
  -- The characters of the last row are not printed; of an empty packet nothing is.
  pub print_packet_content_lem :
      (rows : List Text) (last : Text)
      → AllFull rows
      → 0 < length last
      → length last ≤ 16
      → (print_packet_content isprint (joined rows last) ≡ layout 0 [] rows last)
        × (print_packet_content isprint [] ≡ [])
  unfolding print_packet_content print_loop
  print_packet_content_lem rows last full some_bytes fits =
      (all_rows 0 rows last [] full some_bytes fits, refl)
