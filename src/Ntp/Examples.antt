-- ===== src/Ntp/Examples.antt =====
-- Concrete cases of the theorems on the NTP server.
use infrastructure_in_a_box.Prelude.{
  ◌≡◌, ◌≢◌, ◌↔◌, inr, refl, [], ◌∷◌, none, some, arith, length, take, drop, get_or,
}
use infrastructure_in_a_box.Prelude.Text.{Text}
use infrastructure_in_a_box.Ntp.Protocol.{Instant, version, mode, serve}
use infrastructure_in_a_box.Ntp.Replies.{IsRequest, TellsTime, serve_answers_iff, serve-TellsTime}

-- A request of version 4 with the transmit time 1.
abbrev request : Text
request =
    35 ∷ 0 ∷ 6 ∷ 0 ∷ 0 ∷ 0 ∷ 0 ∷ 0 ∷ 0 ∷ 0 ∷ 0 ∷ 0 ∷ 0 ∷ 0 ∷ 0 ∷ 0 ∷ 0 ∷ 0 ∷ 0 ∷ 0 ∷ 0 ∷ 0 ∷ 0 ∷ 0
    ∷ 0 ∷ 0 ∷ 0 ∷ 0 ∷ 0 ∷ 0 ∷ 0 ∷ 0 ∷ 0 ∷ 0 ∷ 0 ∷ 0 ∷ 0 ∷ 0 ∷ 0 ∷ 0 ∷ 0 ∷ 0 ∷ 0 ∷ 0 ∷ 0 ∷ 0 ∷ 0 ∷ 1
    ∷ []

abbrev noon : Instant
noon = record { unix = 1_700_000_000; nanosecond = 500_000_000 }

serve_answers_iff_example : (serve 123 request noon noon ≢ none) ↔ IsRequest 123 request
serve_answers_iff_example = serve_answers_iff 123 request noon noon

request-IsRequest : IsRequest 123 request
request-IsRequest = record { usable = omega arith; size = refl; client = refl; known = inr refl }

serve-TellsTime_example :
    (p : Text) × (serve 123 request noon noon ≡ some p)
    × (length p ≡ 48)
    × (version p ≡ version request)
    × (mode p ≡ 4)
    × (get_or p 1 0 ≡ 10)
    × TellsTime noon (take 8 (drop 16 p))
    × (take 8 (drop 24 p) ≡ take 8 (drop 40 request))
    × TellsTime noon (take 8 (drop 32 p))
    × TellsTime noon (drop 40 p)
serve-TellsTime_example =
    serve-TellsTime 123 request noon noon request-IsRequest (omega arith) (omega arith)
