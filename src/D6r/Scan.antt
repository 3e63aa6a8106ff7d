-- ===== src/D6r/Scan.antt =====
-- The first loop of `process_msg_from_server` on the options of a message, as a list of codes and contents.
use school_projects.Base.{
  ℕ, zero, suc, ◌+◌, ◌≤◌, ◌<◌, ◌≡◌, ◌≢◌, refl, sym, ◌∙◌, ap, subst, arith, Bool, true, false, ◌&&◌,
  ◌||◌, Bool-cases, inl, inr, Option, none, some, List, [], ◌∷◌, ◌++◌, length, length-append,
  append_assoc, ltb, leb, ◌==◌, if◌then◌else◌,
}
use school_projects.D6r.{Bytes, skip, Run, returns}
use school_projects.D6r.Options.{walk, walk_last, walk_more}
use school_projects.D6r.Client.{encode_option}
use school_projects.D6r.Server.{Found, note_message, both_found, is_some, named}
use school_projects.D6r.Wire.{
  skip-append, copy_from-append, view_option-encode, length-encode_option,
}

-- The options of a message, one after the other.
abbrev pub encode_options : List (ℕ × Bytes) → Bytes
encode_options [] = []
encode_options ((code, content) ∷ os) = encode_option code content ++ encode_options os

-- Codes and lengths that fit in 16 bits, and names of interfaces that fit in `interface_name`.
abbrev pub Fits : List (ℕ × Bytes) → Type 0
Fits [] = Unit
Fits ((code, content) ∷ os) =
    (code < 65536) × (length content < 65536) × (code ≡ 18 → length content ≤ 16) × Fits os

-- A name is copied over what `interface_name` holds.
abbrev pub overwrite : (old new : Bytes) → Bytes
overwrite old new = new ++ skip (length new) old

abbrev pub renamed : (code : ℕ) (content name : Bytes) → Bytes
renamed code content name = if code == 18 then overwrite name content else name

abbrev pub relayed_by : (code : ℕ) (content : Bytes) (relay : Option Bytes) → Option Bytes
relayed_by code content relay = if code == 9 then some content else relay

abbrev both : Bytes → Option Bytes → Bool
both name relay = is_some relay && named name

-- What the loop is to find: the last interface and the last relay message, up to the first option after which
-- it has both.
abbrev pub scan : List (ℕ × Bytes) → (name : Bytes) → (relay : Option Bytes) → Bytes × Option Bytes
scan [] name relay = (name, relay)
scan ((code, content) ∷ os) name relay =
    let name' = renamed code content name in
    let relay' = relayed_by code content relay in
    let rest = scan os name' relay' in if both name' relay' then (name', relay') else rest

-- The pointer to the relay message, and its content.
abbrev pub Points : (pointer content : Option Bytes) → Type 0
Points none none = Unit
Points (some p) (some content) =
    (length content < 65536) × ((tail : Bytes) × (p ≡ encode_option 9 content ++ tail))
Points _ _ = ⊥

Points-is_some : (q r : Option Bytes) → Points q r → is_some q ≡ is_some r
Points-is_some none none h = refl
Points-is_some (some p) (some c) h = refl
Points-is_some none (some c) h = elim h [ ]
Points-is_some (some p) none h = elim h [ ]

note_message-scan :
    (code : ℕ) (content tail : Bytes) (s : Found) (relay : Option Bytes)
    → length content < 65536
    → (code ≡ 18 → length content ≤ 16)
    → Points s.relay_message relay
    → (q : Option Bytes) × (note_message code
          (length content)
          (encode_option code content ++ tail)
          (content ++ tail)
          s
        ≡ some
            (record { interface_name = renamed code content s.interface_name; relay_message = q }))
      × Points q (relayed_by code content relay)
unfolding note_message
note_message-scan code content tail s relay h k v = elim (Bool-cases (code == 18)) [
  | inl interface ↦
      let at_code : code ≡ 18 = ground arith in
      let apart : (code == 9) ≡ false = ground arith in
      let short : ltb 16 (length content) ≡ false = ground (arith, k at_code) in
      (
        s.relay_message,
        rw interface (rw short (rw (copy_from-append (length content) content tail refl) refl)),
        rw apart v,
      )
  | inr other ↦ elim (Bool-cases (code == 9)) [
    | inl message ↦ (
      some (encode_option code content ++ tail),
      rw other (rw message refl),
      rw message (
        h,
        (
          tail,
          let same : code ≡ 9 = ground arith in ap (λ c. encode_option c content ++ tail) same,
        ),
      ),
    )
    | inr neither ↦ (s.relay_message, rw other (rw neither refl), rw neither v)
  ]
]

-- A loop returns the name that is found, and a pointer to the relay message.
abbrev pub Finds : Run Found → Bytes × Option Bytes → Type 0
Finds r (name, relay) =
    (q : Option Bytes) × (r ≡ returns (record { interface_name = name; relay_message = q }))
    × Points q relay

module _ (code : ℕ) (content t : Bytes) (k i read_count : ℕ) (s : Found) (q relay : Option Bytes)
    (c : code < 65536) (l : length content < 65536)
    (noted : note_message code (length content) (encode_option code content ++ t) (content ++ t) s
      ≡ some (record { interface_name = renamed code content s.interface_name; relay_message = q }))
    (points : Points q relay) where
  turn_last :
      (leb read_count (i + (length content + 4))
          || both (renamed code content s.interface_name) relay)
        ≡ true
      → Finds
          (walk note_message both_found read_count (suc k) i (encode_option code content ++ t) s)
          (renamed code content s.interface_name, relay)
  unfolding both_found
  turn_last e = (
    q,
    walk_last note_message both_found read_count k i (view_option-encode code content t c l) noted
        (rw (Points-is_some q relay points) e),
    points,
  )

  turn_more :
      (f : Bytes × Option Bytes)
      → (leb read_count (i + (length content + 4))
          || both (renamed code content s.interface_name) relay)
        ≡ false
      → Finds
          (walk note_message both_found read_count k
            (i + (length content + 4))
            t
            (record { interface_name = renamed code content s.interface_name; relay_message = q }))
          f
      → Finds
          (walk note_message both_found read_count (suc k) i (encode_option code content ++ t) s)
          f
  unfolding both_found
  turn_more (name, found) e (q', returned, points') = (
    q',
    walk_more note_message both_found read_count k i (view_option-encode code content t c l) noted
          (rw (Points-is_some q relay points) e)
        ∙ ap
            (λ p. walk note_message both_found read_count k (i + (length content + 4)) p (record {
              interface_name = renamed code content s.interface_name;
              relay_message = q;
            }))
            (skip-append (length content) content t refl)
        ∙ returned,
    points',
  )

if_same : {A : Type 0} (b : Bool) (a : A) → (if b then a else a) ≡ a
if_same true a = refl
if_same false a = refl

or_false : (b c : Bool) → b ≡ false → c ≡ false → (b || c) ≡ false
or_false false c e h = h
or_false true c e h = absurd cc

or_true : (b c : Bool) → c ≡ true → (b || c) ≡ true
or_true false c h = h
or_true true c h = refl

-- On a message that ends with its last option, the loop finds what it is to find.
pub walk-scan :
    (os : List (ℕ × Bytes)) (fuel i read_count : ℕ) (tail : Bytes) (s : Found)
    (relay : Option Bytes)
    → Fits os
    → os ≢ []
    → read_count ≡ i + length (encode_options os)
    → length os ≤ fuel
    → Points s.relay_message relay
    → Finds
        (walk note_message both_found read_count fuel i (encode_options os ++ tail) s)
        (scan os s.interface_name relay)
walk-scan [] fuel i read_count tail s relay fits ne end enough v = absurd (ne refl)
walk-scan (o ∷ os) zero i read_count tail s relay fits ne end enough v = absurd (omega arith)
walk-scan ((code, content) ∷ []) (suc k) i read_count tail s relay (c, l, n, fits) ne end enough v =
    let (q, noted, points) = note_message-scan code content tail s relay l n v in
    let last : leb read_count (i + (length content + 4)) ≡ true = ground (
      arith,
      end,
      length-append (encode_option code content) [],
      length-encode_option code content,
    ) in
    rw
      (if_same {A = Bytes × Option Bytes}
        (both (renamed code content s.interface_name) (relayed_by code content relay))
        (renamed code content s.interface_name, relayed_by code content relay))
      (subst
        (λ p.
          Finds (walk note_message both_found read_count (suc k) i p s)
            (renamed code content s.interface_name, relayed_by code content relay))
        (sym (append_assoc (encode_option code content) [] tail))
        (turn_last code content tail k i read_count s q (relayed_by code content relay) c l noted
          points (rw last refl)))
walk-scan ((code, content) ∷ (o ∷ os)) (suc k) i read_count tail s relay (c, l, n, fits) ne end
      enough v =
    let t = encode_options (o ∷ os) ++ tail in
    let (q, noted, points) = note_message-scan code content t s relay l n v in
    let more : leb read_count (i + (length content + 4)) ≡ false = ground (
      arith,
      end,
      length-append (encode_option code content) (encode_options (o ∷ os)),
      length-encode_option code content,
    ) in
    subst
      (λ p.
        Finds (walk note_message both_found read_count (suc k) i p s)
          (scan ((code, content) ∷ (o ∷ os)) s.interface_name relay))
      (sym (append_assoc (encode_option code content) (encode_options (o ∷ os)) tail))
      (elim (Bool-cases
        (both (renamed code content s.interface_name) (relayed_by code content relay))) [
          | inl found ↦ rw found (
              turn_last code content t k i read_count s q (relayed_by code content relay) c l noted
                points (or_true _ _ found))
          | inr missing ↦ rw missing (
              turn_more code content t k i read_count s q (relayed_by code content relay) c l noted
                points _ (or_false _ _ more missing)
                (walk-scan (o ∷ os) k (i + (length content + 4)) read_count tail _
                  (relayed_by code content relay) fits (λ e. absurd cc)
                  (omega (
                    arith,
                    end,
                    length-append (encode_option code content) (encode_options (o ∷ os)),
                    length-encode_option code content,
                  ))
                  (omega (arith, enough)) points))
        ])
