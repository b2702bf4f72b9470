-- ===== src/Auth/Examples.antt =====
-- A concrete case of the theorem on nonces.
use infrastructure_in_a_box.Prelude.{◌≡◌, refl, false, [], ◌∷◌}
use infrastructure_in_a_box.Prelude.Text.{bytes}
use infrastructure_in_a_box.Auth.Nonces.{consume, issues, consumes, after}
use infrastructure_in_a_box.Auth.Replay.{IsLive, accepted-IsLive}

accepted-IsLive_example :
    IsLive 9 (bytes "n") (consumes 8 (bytes "m") ∷ issues 7 (bytes "n") ∷ issues 5 (bytes "m") ∷ [])
unfolding after consume
accepted-IsLive_example =
    accepted-IsLive (consumes 8 (bytes "m") ∷ issues 7 (bytes "n") ∷ issues 5 (bytes "m") ∷ []) 9
      (bytes "n") refl

-- A nonce is not accepted twice.
replayed :
    (consume 9 (bytes "m") (after (consumes 8 (bytes "m") ∷ issues 5 (bytes "m") ∷ []))).1 ≡ false
unfolding after consume
replayed = refl
