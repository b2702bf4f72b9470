-- ===== src/Acme/Histories.antt =====
-- The times of creations that the server keeps, as they are charged and pruned.
use infrastructure_in_a_box.Prelude.{
  ℕ, ◌+◌, ◌≡◌, refl, ◌≤◌, inl, inr, true, ◌&&◌, List, [], ◌∷◌, ◌++◌, none, if◌then◌else◌, leb, ltb,
  ◌==◌, length, arith, Bool-cases,
}
use infrastructure_in_a_box.Prelude.Text.{Text, text_discrete}
use infrastructure_in_a_box.Prelude.Table.{Table, get, IsMap}
use infrastructure_in_a_box.Acme.Limits.{LeaseLimit, recent_times, limit_of}
use infrastructure_in_a_box.Acme.Store.{recent_limit, prune_limits}

-- How many of the times lie in the window that ends at `end`.
abbrev pub count_in : ℕ → ℕ → List ℕ → ℕ
count_in width end [] = 0
count_in width end (stamp ∷ stamps) =
    (if leb stamp end && ltb end (stamp + width) then 1 else 0) + count_in width end stamps

pub recent_times-append :
    (now width : ℕ) (a b : List ℕ)
    → recent_times now width (a ++ b) ≡ recent_times now width a ++ recent_times now width b
unfolding recent_times
recent_times-append now width [] b = refl
recent_times-append now width (stamp ∷ a) b = ground (arith, recent_times-append now width a b)

-- What was dropped earlier is not recent later.
pub recent_times-recent_times :
    (now later width : ℕ) (a : List ℕ)
    → now ≤ later
    → recent_times later width (recent_times now width a) ≡ recent_times later width a
unfolding recent_times
recent_times-recent_times now later width [] h = refl
recent_times-recent_times now later width (stamp ∷ a) h =
    ground (arith, recent_times-recent_times now later width a)

pub length-recent_times-le :
    (now later width : ℕ) (a : List ℕ)
    → now ≤ later
    → length (recent_times later width a) ≤ length (recent_times now width a)
unfolding recent_times
length-recent_times-le now later width [] h = omega arith
length-recent_times-le now later width (stamp ∷ a) h =
    ground (arith, length-recent_times-le now later width a)

pub count_in-le-recent :
    (width end : ℕ) (a : List ℕ) → count_in width end a ≤ length (recent_times end width a)
unfolding recent_times
count_in-le-recent width end [] = omega arith
count_in-le-recent width end (stamp ∷ a) = ground (arith, count_in-le-recent width end a)

pub count_in-append :
    (width end : ℕ) (a b : List ℕ)
    → count_in width end (a ++ b) ≡ count_in width end a + count_in width end b
count_in-append width end [] b = omega arith
count_in-append width end (stamp ∷ a) b = omega (arith, count_in-append width end a b)

get-prune_limits-none :
    (now : ℕ) (source : Text) (m : Table Text LeaseLimit)
    → get text_discrete source m ≡ none
    → get text_discrete source (prune_limits now m) ≡ none
unfolding get prune_limits
get-prune_limits-none now source [] h = refl
get-prune_limits-none now source ((k, l) ∷ m) h = ground (arith, get-prune_limits-none now source m)

pub prune_limits-IsMap :
    (now : ℕ) (m : Table Text LeaseLimit)
    → IsMap text_discrete m
    → IsMap text_discrete (prune_limits now m)
unfolding prune_limits
prune_limits-IsMap now [] h = tt
prune_limits-IsMap now ((k, l) ∷ m) h =
    ground (arith, prune_limits-IsMap now m h.1, get-prune_limits-none now k m h.0)

no_times :
    (l : LeaseLimit) → (length l.accounts == 0 && length l.orders == 0) ≡ true → limit_of none ≡ l
no_times l h = go l.accounts l.orders h
  where
    go :
        (a o : List ℕ)
        → (length a == 0 && length o == 0) ≡ true
        → limit_of none ≡ record { accounts = a; orders = o }
    go [] [] h = refl
    go [] (x ∷ o) h = absurd (ground arith)
    go (x ∷ a) o h = absurd (ground arith)

-- Pruning leaves the recent times of each lease.
pub get-prune_limits :
    (now : ℕ) (source : Text) (m : Table Text LeaseLimit)
    → IsMap text_discrete m
    → limit_of (get text_discrete source (prune_limits now m))
      ≡ recent_limit now (limit_of (get text_discrete source m))
unfolding get prune_limits recent_times
get-prune_limits now source [] h = refl
get-prune_limits now source ((k, l) ∷ m) h =
    elim (Bool-cases
      (length (recent_limit now l).accounts == 0 && length (recent_limit now l).orders == 0)) [
        | inl empty ↦ elim (text_discrete k source) [
          | yes e ↦
              ground
                (arith, get-prune_limits-none now source m, no_times (recent_limit now l) empty)
          | no n ↦ ground (arith, get-prune_limits now source m h.1)
        ]
        | inr some_times ↦ elim (text_discrete k source) [
          | yes e ↦ ground arith
          | no n ↦ ground (arith, get-prune_limits now source m h.1)
        ]
      ]
