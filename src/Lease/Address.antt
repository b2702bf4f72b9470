-- ===== src/Lease/Address.antt =====
-- netip.Addr as far as internal/lease uses it, and the address that a scan of the pool finds.
use infrastructure_in_a_box.Prelude.{
  ℕ, zero, suc, ◌+◌, ◌/◌, ◌%◌, ◌^◌, Bool, true, false, ◌&&◌, ◌||◌, List, [], ◌∷◌, ℕ_discrete, ltb,
  leb, ◌==◌, if◌then◌else◌, holds, any,
}
use infrastructure_in_a_box.Prelude.Text.{Text, text_discrete}

-- The zero Addr, an IPv4 address, and an IPv6 address with its zone.
pub data Addr : Type 0 where
  invalid : Addr
  v4 : ℕ → Addr
  v6 : ℕ → Text → Addr

unfoldable pub addr_discrete : Discrete Addr
unfolding ℕ_discrete text_discrete
addr_discrete = hlevel ℕ_discrete

abbrev pub addr_eq : Addr → Addr → Bool
addr_eq a b = holds (addr_discrete a b)

abbrev pub is_valid : Addr → Bool
is_valid invalid = false
is_valid _ = true

abbrev pub is4 : Addr → Bool
is4 (v4 n) = true
is4 _ = false

-- An IPv4 address inside ::ffff:0:0/96 is taken out of it.
unfoldable pub unmap : Addr → Addr
unmap (v6 n zone) = if n / 2 ^ 32 == 0xffff then v4 (n % 2 ^ 32) else v6 n zone
unmap ip = ip

unfoldable pub text_le : Text → Text → Bool
text_le [] t = true
text_le (c ∷ s) [] = false
text_le (c ∷ s) (d ∷ t) = ltb c d || (c == d && text_le s t)

-- a.Compare(b) <= 0: by length, then by value, then by zone.
unfoldable pub addr_le : Addr → Addr → Bool
unfolding text_le
addr_le invalid b = true
addr_le (v4 m) invalid = false
addr_le (v4 m) (v4 n) = leb m n
addr_le (v4 m) (v6 n zone) = true
addr_le (v6 m zone) (v6 n zone') = ltb m n || (m == n && text_le zone zone')
addr_le (v6 m zone) _ = false

-- a.Next(): past the last address comes the zero Addr.
unfoldable pub next_addr : Addr → Addr
next_addr invalid = invalid
next_addr (v4 n) = if n + 1 == 2 ^ 32 then invalid else v4 (n + 1)
next_addr (v6 n zone) = if n + 1 == 2 ^ 128 then invalid else v6 (n + 1) zone

abbrev pub occupies : List Addr → Addr → Bool
occupies taken ip = any (λ a. addr_eq a ip) taken

-- The loop over the pool in OfferWithFallback, with fuel for its rounds.
unfoldable pub scan : ℕ → List Addr → Addr → Addr → Addr
unfolding addr_le next_addr addr_discrete
scan zero taken candidate last = invalid
scan (suc fuel) taken candidate last =
    let rest = scan fuel taken (next_addr candidate) last in
    if is_valid candidate && addr_le candidate last
    then if occupies taken candidate then rest else candidate
    else invalid

-- One more round than the pool has addresses.
abbrev pub scan_fuel : Addr → ℕ
scan_fuel (v4 n) = n + 2
scan_fuel _ = 0
