-- ===== src/D6r/Headers.antt =====
-- `get_udph_from_ipv6h`: the way from the IPv6 header to the UDP header.
use school_projects.Base.{
  ℕ, zero, suc, ◌+◌, ◌≤◌, ◌<◌, ◌≡◌, ◌≢◌, refl, sym, subst, arith, true, false, Bool-cases, inl, inr,
  Option, none, some, Option-cases, [], ◌∷◌, ltb, ◌==◌,
}
use school_projects.D6r.{Bytes, skip, Run, out_of_fuel, fault, stops, returns}

-- `p[n]`
abbrev pub byte_at : ℕ → Bytes → Option ℕ
byte_at n [] = none
byte_at zero (b ∷ p) = some b
byte_at (suc n) (b ∷ p) = byte_at n p

-- `nexthdr` is the byte 6 of the structure, IPPROTO_UDP is 17; `length` is `extension_length` and `total` is
-- `ip_next_header_len`.
unfoldable pub walk_headers : (fuel : ℕ) (p : Bytes) (length total : ℕ) → Run Bytes
walk_headers zero p length total = out_of_fuel
walk_headers (suc k) p length total = elim (byte_at 6 p) [
  | none ↦ fault
  | some next ↦ elim (next == 17) [
    | true ↦ returns (skip length p)
    | false ↦ elim (byte_at 1 (skip length p)) [
      | none ↦ fault
      | some extension ↦ elim (ltb 1000 (total + extension)) [
        | true ↦ stops
        | false ↦ walk_headers k (skip length p) extension (total + extension)
      ]
    ]
  ]
]

-- The bound on `ip_next_header_len` ends the loop after 1001 headers.
unfoldable pub get_udph_from_ipv6h : Bytes → Run Bytes
unfolding walk_headers
get_udph_from_ipv6h p = walk_headers 1002 p 40 0

walk_headers_direct :
    (k : ℕ) (p : Bytes) (length total : ℕ)
    → byte_at 6 p ≡ some 17
    → walk_headers (suc k) p length total ≡ returns (skip length p)
unfolding walk_headers
walk_headers_direct k p length total e = rw (e, walk_headers) refl

-- Without extension headers, the UDP header follows the IPv6 header.
pub get_udph_from_ipv6h_direct :
    (p : Bytes) → byte_at 6 p ≡ some 17 → get_udph_from_ipv6h p ≡ returns (skip 40 p)
unfolding get_udph_from_ipv6h
get_udph_from_ipv6h_direct p e = walk_headers_direct 1001 p 40 0 e

skip_nil : (n : ℕ) → skip n [] ≡ []
skip_nil zero = refl
skip_nil (suc n) = refl

pub skip-skip : (m n k : ℕ) (p : Bytes) → k ≡ n + m → skip m (skip n p) ≡ skip k p
skip-skip m zero k p e = let same : k ≡ m = omega (arith, e) in rw same refl
skip-skip m (suc n) zero p e = absurd (omega (arith, e))
skip-skip m (suc n) (suc k) [] e = skip_nil m
skip-skip m (suc n) (suc k) (b ∷ p) e = skip-skip m n k p (omega (arith, e))

-- The bound on the sum of the lengths ends the loop, unless a length is 0.
walk_headers-out_of_fuel :
    (fuel : ℕ) (p : Bytes) (length total : ℕ)
    → 1000 < fuel + total
    → 0 < fuel
    → walk_headers fuel p length total ≡ out_of_fuel
    → (n : ℕ) × (byte_at 1 (skip n p) ≡ some 0)
unfolding walk_headers
walk_headers-out_of_fuel zero p length total h f = absurd (omega arith)
walk_headers-out_of_fuel (suc k) p length total h f = elim (Option-cases (byte_at 6 p)) [
  | inl short ↦ rw (short, walk_headers) (λ e. absurd cc)
  | inr (next, shown) ↦
      rw (shown, walk_headers)
        (elim (Bool-cases (next == 17)) [
          | inl udp ↦ rw udp (λ e. absurd cc)
          | inr other ↦ rw other (elim (Option-cases (byte_at 1 (skip length p))) [
            | inl short ↦ rw short (λ e. absurd cc)
            | inr (extension, read) ↦ rw read (elim (Bool-cases (ltb 1000 (total + extension))) [
              | inl over ↦ rw over (λ e. absurd cc)
              | inr within ↦ rw within (λ e. elim (Bool-cases (extension == 0)) [
                | inl none_left ↦ (length, ground (arith, read, none_left))
                | inr some_left ↦
                    let (n, zero_length) =
                      walk_headers-out_of_fuel k (skip length p) extension (total + extension)
                        (ground arith) (ground arith) e in
                    (length + n, rw⁻¹ (skip-skip n length (length + n) p refl) zero_length)
              ])
            ])
          ])
        ])
]

-- From a header whose length byte is 0, and which does not have 17 in its byte 6, the loop never goes on.
walk_headers_stuck :
    (fuel : ℕ) (p : Bytes) (next total : ℕ)
    → byte_at 6 p ≡ some next
    → next ≢ 17
    → byte_at 1 p ≡ some 0
    → total ≤ 1000
    → walk_headers fuel p 0 total ≡ out_of_fuel
unfolding walk_headers
walk_headers_stuck zero p next total e ne z le = refl
walk_headers_stuck (suc k) p next total e ne z le =
    let other : (next == 17) ≡ false = ground arith in
    let same : total + 0 ≡ total = omega arith in
    let within : ltb 1000 (total + 0) ≡ false = ground arith in
    rw (e, walk_headers)
      (rw other (
        rw z (
          rw within (
            subst (λ t. walk_headers k p 0 t ≡ out_of_fuel) (sym same)
              (walk_headers_stuck k p next total e ne z le)))))
