-- ===== src/Tftp/Limits.antt =====
-- The limits on concurrent transfers hold at all times.
use infrastructure_in_a_box.Prelude.{
  ℕ, ◌+◌, ◌-◌, ◌≤◌, ◌<◌, ◌≡◌, refl, inl, inr, false, ◌||◌, [], ◌∷◌, Option, none, some,
  if◌then◌else◌, ltb, leb, ◌==◌, length, arith, Bool-cases,
}
use infrastructure_in_a_box.Prelude.Results.{Result, ok, err}
use infrastructure_in_a_box.Prelude.Text.{Text, Unicode}
use infrastructure_in_a_box.Prelude.Table.{
  Table, get, put, erase, IsMap, get-put, get-erase, put-IsMap, erase-IsMap, erase_absent,
  length-erase,
}
use infrastructure_in_a_box.Lease.Address.{Addr, addr_discrete, addr_eq}
use infrastructure_in_a_box.Tftp.Request.{
  ReadRequest, ProtocolError, parse_request, op_error, op_write, op_read,
}
use infrastructure_in_a_box.Prelude.Numbers.{uint16_at}
use infrastructure_in_a_box.Tftp.Exchange.{Peer, Peer-discrete, received}
use infrastructure_in_a_box.Tftp.Admission.{
  Active, max_transfers, max_client_transfers, or_zero, transfers_of, is_present, begin, admit,
  admit_parsed, serve, store_count, finish, Reach, nothing, arrives, ends,
}

-- The transfers under way for an address, counted peer by peer.
abbrev pub count_of : Addr → Table Peer (Unit {0}) → ℕ
count_of addr [] = 0
count_of addr ((p, _) ∷ m) = (if addr_eq p.addr addr then 1 else 0) + count_of addr m

pub record IsLimited (a : Active) : Type 0 where
  pub peers_map : IsMap Peer-discrete a.peers
  pub total : length a.peers ≤ max_transfers
  pub counted : (addr : Addr) → transfers_of a addr ≡ count_of addr a.peers
  pub share : (addr : Addr) → count_of addr a.peers ≤ max_client_transfers

count_of-erase :
    (addr : Addr) (p : Peer) (m : Table Peer (Unit {0}))
    → IsMap Peer-discrete m
    → get Peer-discrete p m ≡ some tt
    → count_of addr (erase Peer-discrete p m) + (if addr_eq p.addr addr then 1 else 0)
      ≡ count_of addr m
unfolding get erase
count_of-erase addr p [] h e = cc
count_of-erase addr p ((q, x) ∷ m) h e = elim (Peer-discrete q p) [
  | yes same ↦ ground (arith, erase_absent Peer-discrete p m)
  | no other ↦ ground (arith, count_of-erase addr p m h.1)
]

begin-IsLimited :
    (a : Active) (peer : Peer)
    → IsLimited a
    → get Peer-discrete peer a.peers ≡ none
    → length a.peers < max_transfers
    → transfers_of a peer.addr < max_client_transfers
    → IsLimited (begin a peer)
unfolding begin put
begin-IsLimited a peer v new_peer room share = record {
  peers_map = put-IsMap Peer-discrete peer tt a.peers v.peers_map;
  total = rw (erase_absent Peer-discrete peer a.peers new_peer) (omega arith);
  counted = λ addr. rw (erase_absent Peer-discrete peer a.peers new_peer) (
      ground (
        arith,
        get-put addr_discrete peer.addr addr (transfers_of a peer.addr + 1) a.clients,
        v.counted addr,
        v.counted peer.addr,
      ));
  share = λ addr.
      rw (erase_absent Peer-discrete peer a.peers new_peer)
        (ground (arith, v.share addr, v.counted addr, v.counted peer.addr));
}

admit-IsLimited :
    (a : Active) (peer : Peer) (r : ReadRequest) → IsLimited a → IsLimited (admit a peer r).0
unfolding admit
admit-IsLimited a peer r v = elim (Bool-cases (is_present (get Peer-discrete peer a.peers))) [
  | inl old ↦ rw old v
  | inr fresh ↦
      elim (Bool-cases (
        leb max_transfers (length a.peers)
        || leb max_client_transfers (transfers_of a peer.addr))) [
          | inl busy ↦ rw (fresh, busy) v
          | inr room ↦
              rw (fresh, room)
                (begin-IsLimited a peer v (absent _ fresh) (ground arith) (ground arith))
        ]
]
  where
    absent : (o : Option (Unit {0})) → is_present o ≡ false → o ≡ none
    absent o h = ground arith

transfers_of-store :
    (k addr : Addr) (n : ℕ) (clients : Table Addr ℕ)
    → or_zero (get addr_discrete addr (store_count k n clients))
      ≡ (if addr_eq k addr then n else or_zero (get addr_discrete addr clients))
transfers_of-store k addr n clients =
    ground (arith, get-erase addr_discrete k addr clients, get-put addr_discrete k addr n clients)

finish-IsLimited :
    (a : Active) (peer : Peer)
    → get Peer-discrete peer a.peers ≡ some tt
    → IsLimited a
    → IsLimited (finish a peer)
unfolding finish
finish-IsLimited a peer h v = record {
  peers_map = erase-IsMap Peer-discrete peer a.peers v.peers_map;
  total = omega (arith, length-erase Peer-discrete peer tt a.peers v.peers_map h, v.total);
  counted = λ addr. ground (
    arith,
    transfers_of-store peer.addr addr (transfers_of a peer.addr - 1) a.clients,
    count_of-erase addr peer a.peers v.peers_map h,
    v.counted addr,
    v.counted peer.addr,
  );
  share = λ addr. omega (arith, count_of-erase addr peer a.peers v.peers_map h, v.share addr);
}

serve-IsLimited :
    (u : Unicode) (a : Active) (peer : Peer) (datagram : Text)
    → IsLimited a
    → IsLimited (serve u a peer datagram).0
unfolding serve
serve-IsLimited u a peer datagram v = elim (Bool-cases (ltb (length packet) 2)) [
  | inl short ↦ rw short v
  | inr two ↦ elim (Bool-cases (uint16_at packet == op_error)) [
    | inl e ↦ rw (two, e) v
    | inr not_error ↦ elim (Bool-cases (uint16_at packet == op_write)) [
      | inl e ↦ rw (two, not_error, e) v
      | inr not_write ↦ elim (Bool-cases (uint16_at packet == op_read)) [
        | inl e ↦ rw (two, not_error, not_write, e) (parsed (parse_request u packet))
        | inr other ↦ rw (two, not_error, not_write, other) v
      ]
    ]
  ]
]
  where
    packet : Text
    packet = received datagram

    parsed : (r : Result ProtocolError ReadRequest) → IsLimited (admit_parsed a peer r).0
    parsed (err e) = v
    parsed (ok r) = admit-IsLimited a peer r v

-- Whatever datagrams arrive and in whatever order transfers end, there are never more than 64
-- transfers, nor more than 4 for one address, and the count that is kept for an address is that of
-- its transfers.
pub Reach-IsLimited : {u : Unicode} {a : Active} → Reach u a → IsLimited a
unfolding get
Reach-IsLimited nothing = record {
  peers_map = tt;
  total = omega arith;
  counted = λ addr. refl;
  share = λ addr. omega arith;
}
Reach-IsLimited {u} (arrives a peer datagram r) =
    serve-IsLimited u a peer datagram (Reach-IsLimited r)
Reach-IsLimited (ends a peer h r) = finish-IsLimited a peer h (Reach-IsLimited r)
