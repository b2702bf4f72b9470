-- ===== src/Lease/Pool.antt =====
-- The scan of the pool finds the lowest free address, and fails only on a full pool.
use infrastructure_in_a_box.Prelude.{
  ℕ, zero, suc, ◌+◌, ◌^◌, ◌≤◌, ◌<◌, ◌≡◌, refl, inl, inr, true, false, List, arith, leb, ◌==◌,
  Bool-cases, ==→eq,
}
use infrastructure_in_a_box.Lease.Address.{
  Addr, invalid, v4, addr_le, next_addr, occupies, scan, scan_fuel,
}

-- The address that a scan from `i` to `last` finds, and what it passes over.
pub data Found (taken : List Addr) (i last : ℕ) (r : Addr) : Type 0 where
  lowest :
      (j : ℕ)
      → r ≡ v4 j
      → i ≤ j
      → j ≤ last
      → occupies taken (v4 j) ≡ false
      → ((k : ℕ) → i ≤ k → k < j → occupies taken (v4 k) ≡ true)
      → Found taken i last r
  full :
      r ≡ invalid
      → ((k : ℕ) → i ≤ k → k ≤ last → occupies taken (v4 k) ≡ true)
      → Found taken i last r

-- A scan that passes over `i`, after one that starts at the next address.
Found-skip :
    (taken : List Addr) (i last : ℕ) (r : Addr)
    → occupies taken (v4 i) ≡ true
    → Found taken (i + 1) last r
    → Found taken i last r
Found-skip taken i last r h (lowest j e a b c below) =
    lowest j e (omega arith) b c (λ k p q. passed k p q)
  where
    passed : (k : ℕ) → i ≤ k → k < j → occupies taken (v4 k) ≡ true
    passed k p q = elim (Bool-cases (k == i)) [
      | inl here ↦ rw (==→eq k i here) h
      | inr there ↦ below k (ground arith) q
    ]
Found-skip taken i last r h (full e rest) = full e (λ k p q. passed k p q)
  where
    passed : (k : ℕ) → i ≤ k → k ≤ last → occupies taken (v4 k) ≡ true
    passed k p q = elim (Bool-cases (k == i)) [
      | inl here ↦ rw (==→eq k i here) h
      | inr there ↦ rest k (ground arith) q
    ]

scan-invalid : (fuel : ℕ) (taken : List Addr) (last : Addr) → scan fuel taken invalid last ≡ invalid
unfolding scan
scan-invalid zero taken last = refl
scan-invalid (suc fuel) taken last = refl

scan_past :
    (fuel : ℕ) (taken : List Addr) (i last : ℕ)
    → last < i
    → scan fuel taken (v4 i) (v4 last) ≡ invalid
unfolding scan addr_le
scan_past zero taken i last h = refl
scan_past (suc fuel) taken i last h = ground arith

-- The address after the last is never reached with a round to spare.
scan_next :
    (fuel : ℕ) (taken : List Addr) (i last : ℕ)
    → i ≤ last
    → last < 2 ^ 32
    → ((i + 1 ≤ last) → Found taken (i + 1) last (scan fuel taken (v4 (i + 1)) (v4 last)))
    → Found taken (i + 1) last (scan fuel taken (next_addr (v4 i)) (v4 last))
unfolding next_addr
scan_next fuel taken i last h w ih = elim (Bool-cases (i + 1 == 2 ^ 32)) [
  | inl end ↦
      rw (end, next_addr)
        (full (scan-invalid fuel taken (v4 last)) (λ k p q. absurd (ground arith)))
  | inr more ↦
      rw (more, next_addr)
        (elim (Bool-cases (leb (i + 1) last)) [
          | inl within ↦ ih (ground arith)
          | inr past ↦
              full (scan_past fuel taken (i + 1) last (ground arith))
                (λ k p q. absurd (ground arith))
        ])
]

scan-Found :
    (fuel : ℕ) (taken : List Addr) (i last : ℕ)
    → i ≤ last
    → last < 2 ^ 32
    → last < fuel + i
    → Found taken i last (scan fuel taken (v4 i) (v4 last))
unfolding scan addr_le
scan-Found zero taken i last h w f = absurd (omega arith)
scan-Found (suc fuel) taken i last h w f = elim (Bool-cases (occupies taken (v4 i))) [
  | inl busy ↦
      let rest =
        scan_next fuel taken i last h w
          (λ m. scan-Found fuel taken (i + 1) last m w (omega arith)) in
      rw (leb_true i last h, busy, scan) (Found-skip taken i last _ busy rest)
  | inr idle ↦
      rw (leb_true i last h, idle, scan)
        (lowest i refl (omega arith) h idle (λ k p q. absurd (omega arith)))
]
  where
    leb_true : (a b : ℕ) → a ≤ b → leb a b ≡ true
    leb_true a b p = ground arith

-- With the fuel that the manager gives it the scan comes to its end.
pub scan_pool-Found :
    (taken : List Addr) (first last : ℕ)
    → first ≤ last
    → last < 2 ^ 32
    → Found taken first last (scan (scan_fuel (v4 last)) taken (v4 first) (v4 last))
scan_pool-Found taken first last h w = scan-Found (last + 2) taken first last h w (omega arith)
