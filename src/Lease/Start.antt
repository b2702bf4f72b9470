-- ===== src/Lease/Start.antt =====
-- newManager gives a valid manager.
use infrastructure_in_a_box.Prelude.{
  ℕ, ◌/◌, ◌^◌, ◌<◌, ◌≡◌, refl, Bool, true, false, ◌||◌, not, [], ◌∷◌, ◌==◌, arith, Bool-cases, inl,
  inr,
}
use infrastructure_in_a_box.Prelude.Int.{is_negative}
use infrastructure_in_a_box.Prelude.Results.{Result, ok, err, fail_if, >>=-eq-ok}
use infrastructure_in_a_box.Prelude.Text.{Unicode}
use infrastructure_in_a_box.Names.Labels.{valid_dns_name}
use infrastructure_in_a_box.Lease.Address.{Addr, invalid, v4, v6, is4, addr_le, unmap}
use infrastructure_in_a_box.Lease.State.{Config}
use infrastructure_in_a_box.Lease.Persistence.{File, RestoreError, restore, ns_name}
use infrastructure_in_a_box.Lease.Manager.{
  Manager, Settings, configured, new_manager, reserve_names, from_restored, gateway_name, bad_pool,
  bad_domain, bad_lease_duration, bad_duration,
}
use infrastructure_in_a_box.Lease.Valid.{IsConfig, IsValid}
use infrastructure_in_a_box.Lease.Restart.{restore-IsSound}

-- The numbers that a netip.Addr can hold.
abbrev pub InRange : Addr → Type 0
InRange invalid = Unit {0}
InRange (v4 n) = n < 2 ^ 32
InRange (v6 n zone) = n < 2 ^ 128

-- An IPv4 address, by its number.
record Numbered (a : Addr) : Type 0 where
  number : ℕ
  is : a ≡ v4 number
  small : number < 2 ^ 32

unmap-InRange : (a : Addr) → InRange a → InRange (unmap a)
unfolding unmap
unmap-InRange invalid h = tt
unmap-InRange (v4 n) h = h
unmap-InRange (v6 n zone) h = elim (Bool-cases (n / 2 ^ 32 == 0xffff)) [
  | inl mapped ↦ rw (mapped, unmap) (omega arith)
  | inr plain ↦ rw (plain, unmap) h
]

number_of : (a : Addr) → is4 a ≡ true → InRange a → Numbered a
number_of (v4 n) e h = record { number = n; is = refl; small = h }
number_of invalid e h = cc
number_of (v6 n zone) e h = cc

IsConfig-of :
    (cfg : Config)
    → (not (is4 cfg.pool_start)
        || not (is4 cfg.pool_end)
        || not (addr_le cfg.pool_start cfg.pool_end))
      ≡ false
    → valid_dns_name cfg.domain ≡ true
    → InRange cfg.pool_start
    → InRange cfg.pool_end
    → IsConfig cfg
unfolding addr_le
IsConfig-of cfg pool domain a b =
    let first = number_of cfg.pool_start (ground arith) a in
    let last = number_of cfg.pool_end (ground arith) b in
    record {
      first = first.number;
      last = last.number;
      starts = first.is;
      ends = last.is;
      ordered = ground (arith, first.is, last.is);
      range = last.small;
      domain = domain;
    }

fail_if-ok : {E : Type 0} (b : Bool) (e : E) (x : Unit {0}) → fail_if b e ≡ ok x → b ≡ false
fail_if-ok true e x h = cc
fail_if-ok false e x h = refl

from_restored-ok :
    {A : Type 0} (r : Result RestoreError A) (a : A) → from_restored r ≡ ok a → r ≡ ok a
from_restored-ok (ok b) a h = ground arith
from_restored-ok (err e) a h = cc

-- A manager that newManager returns, from a pool of addresses in range, is valid, whatever the
-- lease file held.
pub new_manager-IsValid :
    (u : Unicode) (settings : Settings) (file : File) (now : ℕ) (m : Manager)
    → InRange settings.pool_start
    → InRange settings.pool_end
    → new_manager u settings file now ≡ ok m
    → IsValid m
unfolding new_manager
new_manager-IsValid u settings file now m a b e =
    let cfg = configured u settings in
    let bad_pool_test =
      not (is4 cfg.pool_start)
      || not (is4 cfg.pool_end)
      || not (addr_le cfg.pool_start cfg.pool_end) in
    let (x1, h1, e1) = >>=-eq-ok (fail_if bad_pool_test bad_pool) _ e in
    let (x2, h2, e2) = >>=-eq-ok (fail_if (not (valid_dns_name cfg.domain)) bad_domain) _ e1 in
    let (x3, h3, e3) =
      >>=-eq-ok
        (fail_if (is_negative settings.lease_duration || cfg.lease_duration == 0)
          bad_lease_duration)
        _ e2 in
    let (x4, h4, e4) =
      >>=-eq-ok
        (fail_if (is_negative settings.offer_duration || is_negative settings.decline_duration)
          bad_duration)
        _ e3 in
    let (reserved, h5, e5) =
      >>=-eq-ok
        (reserve_names u cfg.domain (ns_name cfg.domain ∷ gateway_name cfg.domain ∷ [])
          settings.reserved_names)
        _ e4 in
    let (s, h6, e6) = >>=-eq-ok (from_restored (restore u cfg reserved now file)) _ e5 in
    let q : m ≡ record { cfg = cfg; reserved = reserved; state = s; file = file } = cc in
    let valid =
      IsConfig-of cfg (fail_if-ok bad_pool_test bad_pool x1 h1)
        (not_false (valid_dns_name cfg.domain) (fail_if-ok _ bad_domain x2 h2))
        (unmap-InRange settings.pool_start a) (unmap-InRange settings.pool_end b) in
    rw q (record {
      config = valid;
      sound = restore-IsSound u cfg reserved now valid file s (from_restored-ok _ s h6);
    })
  where
    not_false : (b : Bool) → not b ≡ false → b ≡ true
    not_false b h = ground arith
