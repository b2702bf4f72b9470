-- ===== src/Ntp/Replies.antt =====
-- What a client gets from the NTP server.
use infrastructure_in_a_box.Prelude.{
  ℕ, ◌+◌, ◌*◌, ◌/◌, ◌%◌, ◌^◌, ◌≤◌, ◌<◌, ◌≡◌, refl, sym, ap, ◌∙◌, ◌≢◌, ◌↔◌, ◌⊎◌, inl, inr, true,
  false, [], ◌++◌, none, some, ◌==◌, length, take, drop, get_or, arith, Bool-cases, length-take,
  length-drop, length-append, take_whole, drop-append_more, take-append, subst,
}
use mathlib.Core.List.{append-nil}
use infrastructure_in_a_box.Prelude.Text.{Text}
use infrastructure_in_a_box.Prelude.Numbers.{
  put_uint32, uint32_at, uint32_at-put_uint32, drop-put_uint32,
}
use infrastructure_in_a_box.Ntp.Protocol.{
  Instant, packet_size, epoch_offset, put_timestamp, version, mode, is_request, reply_to, response,
  serve,
}

-- A plain client request of version 3 or 4, from a usable port.
pub record IsRequest (port : ℕ) (datagram : Text) : Type 0 where
  pub usable : port ≢ 0
  pub size : length datagram ≡ 48
  pub client : mode datagram ≡ 3
  pub known : (version datagram ≡ 3) ⊎ (version datagram ≡ 4)

is_request_iff :
    (r : Text)
    → (is_request r ≡ true) ↔ ((length r ≡ 48) × (mode r ≡ 3) × ((version r ≡ 3) ⊎ (version r ≡ 4)))
unfolding is_request
is_request_iff r = (λ e. ground arith, λ h. ground arith)

-- The server answers exactly the datagrams of 48 bytes from a usable port that are client requests
-- of version 3 or 4; longer ones, which carry extensions or a MAC, are dropped.
pub serve_answers_iff :
    (port : ℕ) (datagram : Text) (t1 t2 : Instant)
    → (serve port datagram t1 t2 ≢ none) ↔ IsRequest port datagram
unfolding serve response
serve_answers_iff port datagram t1 t2 = (there, back)
  where
    cut : Text
    cut = take (packet_size + 1) datagram

    whole : length cut ≡ 48 → cut ≡ datagram
    whole h = take_whole 49 datagram (omega (arith, length-take 49 datagram))

    there : serve port datagram t1 t2 ≢ none → IsRequest port datagram
    there answered = elim (Bool-cases (port == 0)) [
      | inl zero_port ↦ absurd (answered (rw zero_port refl))
      | inr usable ↦ elim (Bool-cases (is_request cut)) [
        | inr bad ↦ absurd (answered (rw (usable, bad) refl))
        | inl good ↦
            let (size, client, known) = (is_request_iff cut).0 good in
            let e = whole size in
            record {
              usable = λ z. ground arith;
              size = rw e at size;
              client = rw e at client;
              known = rw e at known;
            }
      ]
    ]

    back : IsRequest port datagram → serve port datagram t1 t2 ≢ none
    back r =
        let e : cut ≡ datagram = take_whole 49 datagram (omega (arith, r.size)) in
        let usable : (port == 0) ≡ false = ground (arith, r.usable) in
        let good : is_request cut ≡ true =
          rw e ((is_request_iff datagram).1 (r.size, r.client, r.known)) in
        rw (usable, good) (λ z. cc)

-- RFC 5905: a timestamp tells of a clock reading: the seconds since 1900 modulo 2^32, and a fraction
-- that is at most a nanosecond below the clock's.
abbrev pub TellsTime : Instant → Text → Type 0
TellsTime t stamp =
    (length stamp ≡ 8)
    × (uint32_at stamp ≡ (t.unix + 2_208_988_800) % 2 ^ 32)
    × (uint32_at (drop 4 stamp) * 1_000_000_000 ≤ t.nanosecond * 2 ^ 32)
    × (t.nanosecond * 2 ^ 32 < uint32_at (drop 4 stamp) * 1_000_000_000 + 1_000_000_000)

put_timestamp-TellsTime :
    (t : Instant) → t.nanosecond < 1_000_000_000 → TellsTime t (put_timestamp t)
unfolding put_timestamp put_uint32
put_timestamp-TellsTime t h =
    let fraction = t.nanosecond * 2 ^ 32 / 1_000_000_000 % 2 ^ 32 in
    let first =
      uint32_at-put_uint32 ((t.unix + epoch_offset) % 2 ^ 32) (put_uint32 fraction) (omega arith) in
    let second : uint32_at (drop 4 (put_timestamp t)) ≡ fraction =
      ap uint32_at (drop-put_uint32 ((t.unix + epoch_offset) % 2 ^ 32) 0 (put_uint32 fraction))
      ∙ ap uint32_at (sym (append-nil (put_uint32 fraction)))
      ∙ uint32_at-put_uint32 fraction [] (omega arith) in
    (refl, first, rw second (omega arith), rw second (omega arith))

-- Where the fields of a reply stand.
reply_layout :
    (request : Text) (received transmitted : Instant)
    → length request ≡ 48
    → let p = reply_to request received transmitted in
      (length p ≡ 48)
      × (version p ≡ version request)
      × (mode p ≡ 4)
      × (get_or p 1 0 ≡ 10)
      × (take 8 (drop 16 p) ≡ put_timestamp received)
      × (take 8 (drop 24 p) ≡ take 8 (drop 40 request))
      × (take 8 (drop 32 p) ≡ put_timestamp received)
      × (drop 40 p ≡ put_timestamp transmitted)
unfolding reply_to put_timestamp put_uint32
reply_layout request received transmitted h = (
  omega (arith, length-append origin rest, eight),
  omega arith,
  omega arith,
  refl,
  refl,
  subst (λ (n : ℕ). take n (origin ++ rest) ≡ origin) eight (take-append origin rest),
  ap (take 8) (behind_origin 0 rest),
  behind_origin 8 rest,
)
  where
    origin : Text
    origin = take 8 (drop 40 request)

    rest : Text
    rest = put_timestamp received ++ put_timestamp transmitted

    eight : length origin ≡ 8
    eight = omega (arith, length-take 8 (drop 40 request), length-drop 40 request)

    behind_origin : (n : ℕ) (r : Text) → drop (8 + n) (origin ++ r) ≡ drop n r
    behind_origin n r =
        subst (λ (k : ℕ). drop (k + n) (origin ++ r) ≡ drop n r) eight (drop-append_more origin r n)

-- The reply of serve to a plain client request has 48 bytes, server mode, the request's version,
-- stratum 10 and the client's transmit time as its origin; its receive and transmit times tell of
-- the clock when the request came and when the reply left, its reference time of the former.
pub serve-TellsTime :
    (port : ℕ) (request : Text) (received transmitted : Instant)
    → IsRequest port request
    → received.nanosecond < 1_000_000_000
    → transmitted.nanosecond < 1_000_000_000
    → (p : Text) × (serve port request received transmitted ≡ some p)
      × (length p ≡ 48)
      × (version p ≡ version request)
      × (mode p ≡ 4)
      × (get_or p 1 0 ≡ 10)
      × TellsTime received (take 8 (drop 16 p))
      × (take 8 (drop 24 p) ≡ take 8 (drop 40 request))
      × TellsTime received (take 8 (drop 32 p))
      × TellsTime transmitted (drop 40 p)
unfolding serve response
serve-TellsTime port request received transmitted r h k =
    let cut : take (packet_size + 1) request ≡ request =
      take_whole 49 request (omega (arith, r.size)) in
    let usable : (port == 0) ≡ false = ground (arith, r.usable) in
    let good : is_request request ≡ true = (is_request_iff request).1 (r.size, r.client, r.known) in
    let (size, versions, modes, stratum, reference, origin, came, left) =
      reply_layout request received transmitted r.size in
    (
      reply_to request received transmitted,
      rw (cut, usable, good) refl,
      size,
      versions,
      modes,
      stratum,
      rw reference (put_timestamp-TellsTime received h),
      origin,
      rw came (put_timestamp-TellsTime received h),
      rw left (put_timestamp-TellsTime transmitted k),
    )
