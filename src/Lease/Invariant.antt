-- ===== src/Lease/Invariant.antt =====
-- What every reachable state of the lease manager satisfies, and the state changes that keep it.
use infrastructure_in_a_box.Prelude.{
  ℕ, ◌≡◌, refl, sym, ◌∙◌, ◌≢◌, ◌⊎◌, inl, inr, Bool, true, false, List, [], Option, none, some,
  if◌then◌else◌, arith,
}
use infrastructure_in_a_box.Prelude.Text.{Text, text_discrete}
use infrastructure_in_a_box.Prelude.Table.{
  Table, get, erase, retain, IsMap, keep_if, get-erase, get-retain, erase-IsMap, retain-IsMap,
}
use infrastructure_in_a_box.Names.Hostname.{IsHostname}
use infrastructure_in_a_box.Lease.Address.{Addr, addr_discrete}
use infrastructure_in_a_box.Lease.State.{
  Lease, Config, State, after, new_state, in_pool, expire, remove,
}
use infrastructure_in_a_box.Lease.Persistence.{is_reserved}

-- `l` is the lease or the offer of the client.
abbrev pub Holds : State → Text → Lease → Type 0
Holds s client l =
    (get text_discrete client s.leases ≡ some l) ⊎ (get text_discrete client s.offers ≡ some l)

-- No name, or a valid one under the domain.
abbrev pub IsName : Text → Text → Type 0
IsName domain name = (name ≡ []) ⊎ IsHostname domain name

pub record IsSound (cfg : Config) (reserved : List Text) (s : State) : Type 0 where
  pub leases_map : IsMap text_discrete s.leases
  pub offers_map : IsMap text_discrete s.offers
  pub declined_map : IsMap addr_discrete s.declined
  -- An entry names the client that it stands under, an address of the pool and a proper hostname.
  pub entry :
      (c : Text) (l : Lease)
      → Holds s c l
      → (l.client_id ≡ c) × (in_pool cfg l.ip ≡ true) × IsName cfg.domain l.hostname
  -- No address belongs to two clients, as a lease or as an offer.
  pub exclusive : (c d : Text) (l m : Lease) → Holds s c l → Holds s d m → l.ip ≡ m.ip → c ≡ d
  -- No address is held while it is set aside.
  pub free : (c : Text) (l : Lease) → Holds s c l → get addr_discrete l.ip s.declined ≡ none
  -- No hostname is registered twice, and none that is reserved.
  pub unique :
      (c d : Text) (l m : Lease)
      → get text_discrete c s.leases ≡ some l
      → get text_discrete d s.leases ≡ some m
      → l.hostname ≡ m.hostname
      → l.hostname ≢ []
      → c ≡ d
  pub unreserved :
      (c : Text) (l : Lease)
      → get text_discrete c s.leases ≡ some l
      → l.hostname ≢ []
      → is_reserved reserved l.hostname ≡ false

module _ (cfg : Config) (reserved : List Text) where
  pub new_state-IsSound : IsSound cfg reserved new_state
  unfolding get
  new_state-IsSound = record {
    leases_map = tt;
    offers_map = tt;
    declined_map = tt;
    entry = λ c l h. ground arith;
    exclusive = λ c d l m h k e. ground arith;
    free = λ c l h. ground arith;
    unique = λ c d l m h k e n. cc;
    unreserved = λ c l h n. cc;
  }

-- `t` has entries of `s` only.
pub record Within (t s : State) : Type 0 where
  pub leases_map : IsMap text_discrete t.leases
  pub offers_map : IsMap text_discrete t.offers
  pub declined_map : IsMap addr_discrete t.declined
  pub lease :
      (c : Text) (l : Lease)
      → get text_discrete c t.leases ≡ some l
      → get text_discrete c s.leases ≡ some l
  pub offer :
      (c : Text) (l : Lease)
      → get text_discrete c t.offers ≡ some l
      → get text_discrete c s.offers ≡ some l
  pub declined :
      (ip : Addr) → get addr_discrete ip s.declined ≡ none → get addr_discrete ip t.declined ≡ none

pub Within-Holds : {t s : State} → Within t s → (c : Text) (l : Lease) → Holds t c l → Holds s c l
Within-Holds w c l (inl h) = inl (w.lease c l h)
Within-Holds w c l (inr h) = inr (w.offer c l h)

-- A state with fewer entries is sound too.
pub Within-IsSound :
    {cfg : Config} {reserved : List Text} {t s : State}
    → Within t s
    → IsSound cfg reserved s
    → IsSound cfg reserved t
Within-IsSound w v =
    let up = Within-Holds w in
    record {
      leases_map = w.leases_map;
      offers_map = w.offers_map;
      declined_map = w.declined_map;
      entry = λ c l h. v.entry c l (up c l h);
      exclusive = λ c d l m h k e. v.exclusive c d l m (up c l h) (up d m k) e;
      free = λ c l h. w.declined l.ip (v.free c l (up c l h));
      unique = λ c d l m h k. v.unique c d l m (w.lease c l h) (w.lease d m k);
      unreserved = λ c l h. v.unreserved c l (w.lease c l h);
    }

keep_if-some :
    {V : Type 0} (p : V → Bool) (o : Option V) (v : V)
    → keep_if p o ≡ some v
    → (o ≡ some v) × (p v ≡ true)
keep_if-some p none v e = cc
keep_if-some p (some w) v e = ground arith

keep_if-none : {V : Type 0} (p : V → Bool) (o : Option V) → o ≡ none → keep_if p o ≡ none
keep_if-none p none e = refl
keep_if-none p (some w) e = cc

-- What is left of a map after a filter was there before, and passes the filter.
pub get-retain-some :
    {K V : Type 0} (dec : Discrete K) (p : V → Bool) (m : Table K V) (k : K) (v : V)
    → IsMap dec m
    → get dec k (retain p m) ≡ some v
    → (get dec k m ≡ some v) × (p v ≡ true)
get-retain-some dec p m k v h e = keep_if-some p (get dec k m) v (sym (get-retain dec p k m h) ∙ e)

pub expire-Within :
    {cfg : Config} {reserved : List Text} {s : State} (now : ℕ)
    → IsSound cfg reserved s
    → Within (expire now s) s
unfolding expire
expire-Within {s = s} now v = record {
  leases_map = retain-IsMap text_discrete _ s.leases v.leases_map;
  offers_map = retain-IsMap text_discrete _ s.offers v.offers_map;
  declined_map = retain-IsMap addr_discrete _ s.declined v.declined_map;
  lease = λ c l h. (get-retain-some text_discrete _ s.leases c l v.leases_map h).0;
  offer = λ c l h. (get-retain-some text_discrete _ s.offers c l v.offers_map h).0;
  declined = λ ip h.
      get-retain addr_discrete _ ip s.declined v.declined_map
      ∙ keep_if-none (after now) (get addr_discrete ip s.declined) h;
}

pub expire-IsSound :
    {cfg : Config} {reserved : List Text} {s : State} (now : ℕ)
    → IsSound cfg reserved s
    → IsSound cfg reserved (expire now s)
expire-IsSound now v = Within-IsSound (expire-Within now v) v

erase_if-IsMap :
    {V : Type 0} (b : Bool) (c : Text) (m : Table Text V)
    → IsMap text_discrete m
    → IsMap text_discrete (if b then erase text_discrete c m else m)
erase_if-IsMap true c m h = erase-IsMap text_discrete c m h
erase_if-IsMap false c m h = h

pub get-erase-some :
    {V : Type 0} (c d : Text) (m : Table Text V) (v : V)
    → get text_discrete d (erase text_discrete c m) ≡ some v
    → (c ≢ d) × (get text_discrete d m ≡ some v)
get-erase-some c d m v h = ground (arith, get-erase text_discrete c d m)

get-erase_if :
    {V : Type 0} (b : Bool) (c d : Text) (m : Table Text V) (v : V)
    → get text_discrete d (if b then erase text_discrete c m else m) ≡ some v
    → get text_discrete d m ≡ some v
get-erase_if true c d m v h = (get-erase-some c d m v h).1
get-erase_if false c d m v h = h

pub remove-Within :
    {cfg : Config} {reserved : List Text} {s : State} (c : Text) (ip : Addr)
    → IsSound cfg reserved s
    → Within (remove c ip s) s
unfolding remove
remove-Within {s = s} c ip v = record {
  leases_map = erase_if-IsMap _ c s.leases v.leases_map;
  offers_map = erase_if-IsMap _ c s.offers v.offers_map;
  declined_map = v.declined_map;
  lease = λ d l h. get-erase_if _ c d s.leases l h;
  offer = λ d l h. get-erase_if _ c d s.offers l h;
  declined = λ a h. h;
}
