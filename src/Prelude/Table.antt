-- ===== src/Prelude/Table.antt =====
-- Go maps as association lists. `range` visits the entries; Go leaves their order open, and the
-- statements about it hold for every order.
use Prim.Native.Nat.{◌+◌}
use mathlib.Core.Path.{◌≡◌, refl}
use mathlib.Core.Logic.{◌≢◌, ◌⊎◌, inl, inr, ite}
use mathlib.Core.Bool.{Bool, true, false}
use mathlib.Core.Option.{Option, none, some}
use mathlib.Core.List.{List, [], ◌∷◌}
use native.Mathlib.Omega.{arith}
use infrastructure_in_a_box.Prelude.Tests.{if◌then◌else◌, Bool-cases}
use infrastructure_in_a_box.Prelude.Lists.{length, In}

abbrev pub Table : Type 0 → Type 0 → Type 0
Table K V = List (K × V)

-- An entry that a filter keeps.
abbrev pub keep_if : {V : Type 0} → (V → Bool) → Option V → Option V
keep_if p none = none
keep_if p (some v) = if p v then some v else none

module _ {K V : Type 0} (dec : Discrete K) where
  -- m[k], with the presence of the key.
  unfoldable pub get : K → Table K V → Option V
  get k [] = none
  get k ((j, v) ∷ m) = ite (dec j k) (some v) (get k m)

  -- delete(m, k)
  unfoldable pub erase : K → Table K V → Table K V
  erase k [] = []
  erase k ((j, v) ∷ m) = ite (dec j k) (erase k m) ((j, v) ∷ erase k m)

  -- m[k] = v
  unfoldable pub put : K → V → Table K V → Table K V
  unfolding erase
  put k v m = (k, v) ∷ erase k m

  -- No key twice.
  abbrev pub IsMap : Table K V → Type 0
  IsMap [] = Unit {0}
  IsMap ((k, v) ∷ m) = (get k m ≡ none) × IsMap m

-- for k, v := range m { if !p(v) { delete(m, k) } }
unfoldable pub retain : {K V : Type 0} → (V → Bool) → Table K V → Table K V
retain p [] = []
retain p ((k, v) ∷ m) = if p v then (k, v) ∷ retain p m else retain p m

-- for k, v := range m { m[k] = f(v) }
unfoldable pub update_all : {K V : Type 0} → (V → V) → Table K V → Table K V
update_all f [] = []
update_all f ((k, v) ∷ m) = (k, f v) ∷ update_all f m

-- What an entry becomes.
abbrev pub updated : {V : Type 0} → (V → V) → Option V → Option V
updated f none = none
updated f (some v) = some (f v)

-- for k, v := range m { if p(k, v) { return v } }
unfoldable pub find : {K V : Type 0} → (K → V → Bool) → Table K V → Option V
find p [] = none
find p ((k, v) ∷ m) = if p k v then some v else find p m

module _ {K V : Type 0} (dec : Discrete K) where
  pub get-erase :
      (k j : K) (m : Table K V) → get dec j (erase dec k m) ≡ ite (dec k j) none (get dec j m)
  unfolding get erase
  get-erase k j [] = ground arith
  get-erase k j ((i, v) ∷ m) = ground (arith, get-erase k j m)

  pub get-put :
      (k j : K) (v : V) (m : Table K V)
      → get dec j (put dec k v m) ≡ ite (dec k j) (some v) (get dec j m)
  unfolding get put
  get-put k j v m = ground (arith, get-erase k j m)

  pub erase-IsMap : (k : K) (m : Table K V) → IsMap dec m → IsMap dec (erase dec k m)
  unfolding erase
  erase-IsMap k [] h = tt
  erase-IsMap k ((j, v) ∷ m) h = ground (arith, erase-IsMap k m h.1, get-erase k j m)

  pub put-IsMap : (k : K) (v : V) (m : Table K V) → IsMap dec m → IsMap dec (put dec k v m)
  unfolding put
  put-IsMap k v m h = (rw (get-erase k k m) (ground arith), erase-IsMap k m h)

  get-retain-none :
      (p : V → Bool) (k : K) (m : Table K V) → get dec k m ≡ none → get dec k (retain p m) ≡ none
  unfolding get retain
  get-retain-none p k [] h = refl
  get-retain-none p k ((j, v) ∷ m) h = ground (arith, get-retain-none p k m)

  pub get-retain :
      (p : V → Bool) (k : K) (m : Table K V)
      → IsMap dec m
      → get dec k (retain p m) ≡ keep_if p (get dec k m)
  unfolding get retain
  get-retain p k [] h = refl
  get-retain p k ((j, v) ∷ m) h = ground (arith, get-retain p k m h.1, get-retain-none p j m h.0)

  pub retain-IsMap : (p : V → Bool) (m : Table K V) → IsMap dec m → IsMap dec (retain p m)
  unfolding retain
  retain-IsMap p [] h = tt
  retain-IsMap p ((k, v) ∷ m) h = ground (arith, retain-IsMap p m h.1, get-retain-none p k m h.0)

  pub get-In : (k : K) (v : V) (m : Table K V) → get dec k m ≡ some v → In (k, v) m
  unfolding get
  get-In k v [] h = cc
  get-In k v ((j, w) ∷ m) h = elim (dec j k) [
    | yes e ↦ inl (ground arith)
    | no n ↦ inr (get-In k v m (ground arith))
  ]

  pub In-get : (k : K) (v : V) (m : Table K V) → IsMap dec m → In (k, v) m → get dec k m ≡ some v
  unfolding get
  In-get k v [] h i = absurd i
  In-get k v ((j, w) ∷ m) h (inl e) = ground arith
  In-get k v ((j, w) ∷ m) h (inr i) = ground (arith, In-get k v m h.1 i)

  -- What a search returns is an entry that passes the test, whatever the order of the entries.
  pub find-some :
      (p : K → V → Bool) (m : Table K V) (v : V)
      → IsMap dec m
      → find p m ≡ some v
      → (k : K) × (get dec k m ≡ some v) × (p k v ≡ true)
  unfolding find get
  find-some p [] v h e = cc
  find-some p ((k, w) ∷ m) v h e = elim (Bool-cases (p k w)) [
    | inl hit ↦ (k, ground arith, ground arith)
    | inr miss ↦
        let (j, found, good) = find-some p m v h.1 (ground arith) in (j, ground arith, good)
  ]

  -- A search that comes back empty has seen every entry fail.
  pub find-none :
      (p : K → V → Bool) (m : Table K V) (k : K) (v : V)
      → find p m ≡ none
      → get dec k m ≡ some v
      → p k v ≡ false
  unfolding find get
  find-none p [] k v e h = cc
  find-none p ((j, w) ∷ m) k v e h = ground (arith, find-none p m k v)

  pub erase_absent : (k : K) (m : Table K V) → get dec k m ≡ none → erase dec k m ≡ m
  unfolding get erase
  erase_absent k [] h = refl
  erase_absent k ((j, v) ∷ m) h = ground (arith, erase_absent k m)

  pub length-erase :
      (k : K) (v : V) (m : Table K V)
      → IsMap dec m
      → get dec k m ≡ some v
      → length (erase dec k m) + 1 ≡ length m
  unfolding get erase
  length-erase k v [] h e = cc
  length-erase k v ((j, w) ∷ m) h e = elim (dec j k) [
    | yes same ↦ ground (arith, erase_absent k m)
    | no other ↦ ground (arith, length-erase k v m h.1)
  ]

  pub get-update_all :
      (f : V → V) (k : K) (m : Table K V) → get dec k (update_all f m) ≡ updated f (get dec k m)
  unfolding get update_all
  get-update_all f k [] = refl
  get-update_all f k ((j, v) ∷ m) = ground (arith, get-update_all f k m)

  pub update_all-IsMap : (f : V → V) (m : Table K V) → IsMap dec m → IsMap dec (update_all f m)
  unfolding update_all
  update_all-IsMap f [] h = tt
  update_all-IsMap f ((k, v) ∷ m) h = ground (arith, update_all-IsMap f m, get-update_all f k m)

  -- What a map holds behind an assignment: the new value, or what was there.
  pub put-from :
      (k j : K) (v w : V) (m : Table K V)
      → get dec j (put dec k v m) ≡ some w
      → ((k ≡ j) × (w ≡ v)) ⊎ ((k ≢ j) × (get dec j m ≡ some w))
  put-from k j v w m h = elim (dec k j) [
    | yes e ↦ inl (e, ground (arith, get-put k j v m))
    | no n ↦ inr (n, ground (arith, get-put k j v m))
  ]

  pub put_same : (k : K) (v : V) (m : Table K V) → get dec k (put dec k v m) ≡ some v
  put_same k v m = ground (arith, get-put k k v m)

  pub put_other :
      (k j : K) (v : V) (m : Table K V) → k ≢ j → get dec j (put dec k v m) ≡ get dec j m
  put_other k j v m n = ground (arith, get-put k j v m)
