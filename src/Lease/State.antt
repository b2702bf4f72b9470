-- ===== src/Lease/State.antt =====
-- internal/lease/manager.go: the state, its maps and the helpers under the exported methods.
use infrastructure_in_a_box.Prelude.{
  ℕ, ◌-◌, Bool, false, ◌&&◌, ◌||◌, not, List, [], ◌∷◌, ◌++◌, Option, none, some, ltb, leb, ◌==◌,
  if◌then◌else◌, length,
}
use infrastructure_in_a_box.Prelude.Text.{Text, text_discrete, text_eq}
use infrastructure_in_a_box.Prelude.Table.{Table, get, erase, retain}
use infrastructure_in_a_box.Lease.Address.{Addr, addr_discrete, addr_eq, addr_le, is4}

-- Times are nanoseconds since Go's zero time and do not overflow.
pub record Lease : Type 0 where
  pub client_id : Text
  pub ip : Addr
  pub hostname : Text
  pub expires_at : ℕ

pub record Config : Type 0 where
  pub pool_start : Addr
  pub pool_end : Addr
  pub domain : Text
  pub lease_duration : ℕ
  pub offer_duration : ℕ
  pub decline_duration : ℕ
  pub file : Text

pub record State : Type 0 where
  pub leases : Table Text Lease
  pub offers : Table Text Lease
  pub declined : Table Addr ℕ

-- newState.
abbrev pub new_state : State
new_state = record { leases = []; offers = []; declined = [] }

-- t.After(now).
abbrev pub after : ℕ → ℕ → Bool
after now t = ltb now t

-- Manager.expire.
unfoldable pub expire : ℕ → State → State
unfolding retain
expire now s = record {
  leases = retain (λ (l : Lease). after now l.expires_at) s.leases;
  offers = retain (λ (l : Lease). after now l.expires_at) s.offers;
  declined = retain (after now) s.declined;
}

-- Manager.inPool.
unfoldable pub in_pool : Config → Addr → Bool
unfolding addr_le
in_pool cfg ip = is4 ip && addr_le cfg.pool_start ip && addr_le ip cfg.pool_end

-- The addresses of every client but one.
unfoldable pub other_ips : Text → Table Text Lease → List Addr
unfolding text_discrete
other_ips client [] = []
other_ips client ((other, l) ∷ m) =
    if text_eq other client then other_ips client m else l.ip ∷ other_ips client m

unfoldable pub keys : {K V : Type 0} → Table K V → List K
keys [] = []
keys ((k, v) ∷ m) = k ∷ keys m

-- Manager.occupied, the keys of the map that it builds.
unfoldable pub occupied : State → Text → List Addr
unfolding other_ips keys
occupied s client = other_ips client s.leases ++ (other_ips client s.offers ++ keys s.declined)

-- The lease under a key has this address.
abbrev pub has_ip : Addr → Option Lease → Bool
has_ip ip none = false
has_ip ip (some l) = addr_eq l.ip ip

-- Manager.owns.
unfoldable pub owns : State → Text → Addr → Bool
unfolding get text_discrete addr_discrete
owns s client ip =
    has_ip ip (get text_discrete client s.leases) || has_ip ip (get text_discrete client s.offers)

-- state.remove.
unfoldable pub remove : Text → Addr → State → State
unfolding get erase text_discrete addr_discrete
remove client ip s = record s {
  leases =
      if has_ip ip (get text_discrete client s.leases)
      then erase text_discrete client s.leases
      else s.leases;
  offers =
      if has_ip ip (get text_discrete client s.offers)
      then erase text_discrete client s.offers
      else s.offers;
}

-- What utf8.ValidString expects next: how many continuation bytes, and the range of the first.
pub record Pending : Type 0 where
  pub more : ℕ
  pub low : ℕ
  pub high : ℕ

abbrev start : Pending
start = record { more = 0; low = 0; high = 0 }

abbrev first_byte : ℕ → Option Pending
first_byte c =
    if ltb c 0x80
    then some start
    else if ltb c 0xc2
    then none
    else if ltb c 0xe0
    then some (record { more = 1; low = 0x80; high = 0xbf })
    else if c == 0xe0
    then some (record { more = 2; low = 0xa0; high = 0xbf })
    else if c == 0xed
    then some (record { more = 2; low = 0x80; high = 0x9f })
    else if ltb c 0xf0
    then some (record { more = 2; low = 0x80; high = 0xbf })
    else if c == 0xf0
    then some (record { more = 3; low = 0x90; high = 0xbf })
    else if ltb c 0xf4
    then some (record { more = 3; low = 0x80; high = 0xbf })
    else if c == 0xf4
    then some (record { more = 3; low = 0x80; high = 0x8f })
    else none

abbrev next_byte : Pending → ℕ → Option Pending
next_byte p c =
    if p.more == 0
    then first_byte c
    else if leb p.low c && leb c p.high
    then some (record { more = p.more - 1; low = 0x80; high = 0xbf })
    else none

unfoldable pub utf8_from : Pending → Text → Bool
utf8_from p [] = p.more == 0
utf8_from p (c ∷ s) = elim (next_byte p c) [ none ↦ false | some q ↦ utf8_from q s ]

-- validClientID.
unfoldable pub valid_client_id : Text → Bool
unfolding utf8_from
valid_client_id id = not (length id == 0) && utf8_from start id
