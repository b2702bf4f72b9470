-- ===== src/Tftp/Admission.antt =====
-- internal/tftpserver/server.go: Serve, which starts a transfer for a request or answers it, under
-- the mutex that also covers the end of a transfer.
use infrastructure_in_a_box.Prelude.{
  ℕ, ◌+◌, ◌-◌, ◌≡◌, Bool, true, false, ◌||◌, [], Option, none, some, if◌then◌else◌, ltb, leb, ◌==◌,
  length,
}
use infrastructure_in_a_box.Prelude.Results.{Result, ok, err}
use infrastructure_in_a_box.Prelude.Text.{Text, Unicode, bytes}
use infrastructure_in_a_box.Prelude.Table.{Table, get, put, erase}
use infrastructure_in_a_box.Prelude.Numbers.{uint16_at}
use infrastructure_in_a_box.Lease.Address.{Addr, addr_discrete}
use infrastructure_in_a_box.Tftp.Request.{
  ReadRequest, ProtocolError, error_of, parse_request, op_error, op_write, op_read,
}
use infrastructure_in_a_box.Tftp.Exchange.{Peer, Peer-discrete, received}

-- The peers with a transfer, and how many each address has.
pub record Active : Type 0 where
  pub peers : Table Peer (Unit {0})
  pub clients : Table Addr ℕ

abbrev pub idle : Active
idle = record { peers = []; clients = [] }

abbrev pub max_transfers : ℕ
max_transfers = 64

abbrev pub max_client_transfers : ℕ
max_client_transfers = 4

-- What Serve does with a datagram.
pub data Reaction : Type 0 where
  ignore : Reaction
  send_error : ProtocolError → Reaction
  start : ReadRequest → Reaction

-- A missing key reads as zero.
abbrev pub or_zero : Option ℕ → ℕ
or_zero none = 0
or_zero (some n) = n

abbrev pub transfers_of : Active → Addr → ℕ
transfers_of a addr = or_zero (get addr_discrete addr a.clients)

abbrev pub is_present : {V : Type 0} → Option V → Bool
is_present none = false
is_present (some v) = true

unfoldable pub begin : Active → Peer → Active
begin a peer = record {
  peers = put Peer-discrete peer tt a.peers;
  clients = put addr_discrete peer.addr (transfers_of a peer.addr + 1) a.clients;
}

-- The part under the mutex, for a well-formed request.
unfoldable pub admit : Active → Peer → ReadRequest → Active × Reaction
admit a peer r =
    if is_present (get Peer-discrete peer a.peers)
    then (a, ignore)
    else if leb max_transfers (length a.peers)
        || leb max_client_transfers (transfers_of a peer.addr)
    then (a, send_error (error_of 0 (bytes "too many active transfers; retry later")))
    else (begin a peer, start r)

abbrev pub admit_parsed : Active → Peer → Result ProtocolError ReadRequest → Active × Reaction
admit_parsed a peer (err e) = (a, send_error e)
admit_parsed a peer (ok r) = admit a peer r

-- One round of Serve's loop, on a datagram that was read.
unfoldable pub serve : Unicode → Active → Peer → Text → Active × Reaction
serve u a peer datagram =
    let packet = received datagram in
    if ltb (length packet) 2
    then (a, ignore)
    else if uint16_at packet == op_error
    then (a, ignore)
    else if uint16_at packet == op_write
    then (a, send_error (error_of 2 (bytes "TFTP is read-only")))
    else if uint16_at packet == op_read
    then admit_parsed a peer (parse_request u packet)
    else (a, send_error (error_of 4 (bytes "expected read request")))

abbrev pub store_count : Addr → ℕ → Table Addr ℕ → Table Addr ℕ
store_count addr n clients =
    if n == 0 then erase addr_discrete addr clients else put addr_discrete addr n clients

-- The deferred end of a worker. The count of an address with a transfer is positive.
unfoldable pub finish : Active → Peer → Active
finish a peer = record {
  peers = erase Peer-discrete peer a.peers;
  clients = store_count peer.addr (transfers_of a peer.addr - 1) a.clients;
}

-- What the server goes through: datagrams arrive, and transfers that are under way end.
pub data Reach (u : Unicode) : Active → Type 0 where
  nothing : Reach u idle
  arrives :
      (a : Active) (peer : Peer) (datagram : Text) → Reach u a → Reach u (serve u a peer datagram).0
  ends :
      (a : Active) (peer : Peer)
      → get Peer-discrete peer a.peers ≡ some tt
      → Reach u a
      → Reach u (finish a peer)
