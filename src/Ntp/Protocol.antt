-- ===== src/Ntp/Protocol.antt =====
-- internal/ntpserver/protocol.go, and the round of Serve's loop in internal/ntpserver/server.go.
use infrastructure_in_a_box.Prelude.{
  ℕ, ◌+◌, ◌*◌, ◌/◌, ◌%◌, ◌^◌, Bool, ◌&&◌, ◌||◌, not, ◌∷◌, ◌++◌, Option, none, some, if◌then◌else◌,
  ◌==◌, length, take, drop, get_or,
}
use infrastructure_in_a_box.Prelude.Text.{Text}
use infrastructure_in_a_box.Prelude.Numbers.{put_uint32}

abbrev pub packet_size : ℕ
packet_size = 48

-- A reading of the host clock, from 1970 on: seconds and nanoseconds.
pub record Instant : Type 0 where
  pub unix : ℕ
  pub nanosecond : ℕ

-- Seconds from 1900 to 1970.
abbrev pub epoch_offset : ℕ
epoch_offset = 2_208_988_800

-- putTimestamp: the eight bytes that it writes. Seconds wrap at the NTP eras.
unfoldable pub put_timestamp : Instant → Text
put_timestamp t =
    put_uint32 ((t.unix + epoch_offset) % 2 ^ 32)
    ++ put_uint32 (t.nanosecond * 2 ^ 32 / 1_000_000_000 % 2 ^ 32)

-- (request[0] >> 3) & 7
abbrev pub version : Text → ℕ
version request = get_or request 0 0 / 8 % 8

-- request[0] & 7
abbrev pub mode : Text → ℕ
mode request = get_or request 0 0 % 8

-- The test of a request: its size, its version and the client's mode.
unfoldable pub is_request : Text → Bool
is_request request =
    length request == packet_size
    && not (not (version request == 3) && not (version request == 4) || not (mode request == 3))

-- The reply, field by field.
unfoldable pub reply_to : Text → Instant → Instant → Text
reply_to request received transmitted =
    (version request * 8 + 4)
    ∷ 10
    ∷ get_or request 2 0
    ∷ 0xf6
    ∷ 0
    ∷ 0
    ∷ 0
    ∷ 0
    ∷ (put_uint32 66
        ++ (127
            ∷ 127
            ∷ 1
            ∷ 0
            ∷ (put_timestamp received
                ++ (take 8 (drop 40 request)
                    ++ (put_timestamp received ++ put_timestamp transmitted)))))

-- response.
unfoldable pub response : Text → Instant → Instant → Option Text
unfolding is_request reply_to
response request received transmitted =
    if is_request request then some (reply_to request received transmitted) else none

-- What Serve sends to the peer of a datagram. The buffer holds one byte more than a request.
unfoldable pub serve : ℕ → Text → Instant → Instant → Option Text
unfolding response
serve port datagram received transmitted =
    if port == 0 then none else response (take (packet_size + 1) datagram) received transmitted
