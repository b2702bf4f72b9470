-- ===== src/Lib.antt =====
-- Infrastructure in a Box: one program that serves DHCP, DNS, NTP, TFTP, HTTP(S), ACME, LDAP and NFS
-- for a lab network. This library models its core in Go: the lease manager that DHCP and DNS
-- share, the names that they register, and the protocol logic of its servers.
--
-- The parts and the files that model them:
--
--   Names      internal/lease/hostname.go (NormalizeHostname, validDNSName) and
--              internal/dnsname/name.go (NormalizeARecord, validHostname). Labels has the rule on
--              labels, Hostname and Record the two normalizations.
--   Lease      internal/lease/manager.go and internal/lease/persistence.go. State has the maps of
--              leases, offers and declined addresses and the helpers on them; Manager has newManager;
--              Offers, Commits and Queries have the exported methods, each a function from a time, the
--              luck of the disk where it writes, and a manager to the next manager and the answer;
--              Persistence has restore and persist. Every method holds the manager's mutex from
--              its first line to its last, so a run of the servers is a sequence of calls (Runs).
--   Tftp       internal/tftpserver. Request has the parsing of requests and the acknowledgement of
--              options (protocol.go), Exchange the retransmission of one packet, Transfer the loop over
--              the blocks (transfer.go), Admission the loop that starts transfers (server.go).
--   Ntp        internal/ntpserver: the reply to a request, and one round of the serving loop.
--   Dhcp       internal/dhcpserver. Request has what is read from a request, Hostname the names in
--              requests and replies (hostname.go), Reply the modifiers that a reply is built with, the
--              boot options (pxe.go) and the address that it goes to, Handler the method Handle over
--              the lease manager (server.go), Calls which of its methods a message may call.
--   Dns        internal/dnsserver/server.go. Zone has the lookup of a name in the local zone, with its
--              leases and wildcards, Records the configured records (normalizeARecords), External the
--              static names and the overrides outside the zone, Answer the records of a response
--              (answerLocal, answerOverride), Serving the choice of an answer (serveDNS,
--              reverseAuthority). The lease manager is its Registry.
--   Acme       internal/acmeserver. Limits has the quotas of a lease on accounts and orders, State
--              the snapshot (types.go), Store its pruning, its commit and what a restart makes of it
--              (store.go), Accounts, Orders, Challenges and Issuance the handlers of accounts.go and
--              orders.go, Revocation those of revocation.go. A handler is a function from a time, the
--              luck of the disk and a server to the next server and the answer; it holds the mutex
--              from its first read to its last write, but for challenge, which lets go of it while it
--              validates, and is two functions, challenge_begin and challenge_finish. Runs has the
--              steps of a server and what they reach.
--   Auth       internal/acmeauth/auth.go: the nonces of signed requests, issued and consumed.
--   Ldap       internal/ldapserver. Packet has the tests on decoded packets and the controls
--              (protocol.go), Directory the attributes of an entry, Filter what compileFilter accepts,
--              Evaluation how a filter is evaluated, Search a search, and Session a bind and one round
--              of handleConnection.
--   Prelude    What they share: byte strings and the functions of package strings on them, association
--              lists for maps, machine numbers in network order, results with errors.
--
-- Strings and packets are lists of bytes. Times are natural numbers of nanoseconds. An address is a
-- netip.Addr: nothing, an IPv4 number or an IPv6 number with its zone. A map is an association list
-- whose keys are distinct; the order in which Go walks a map is not specified, and where the program
-- walks one, the theorems hold for the order of the list, whichever it is.
--
-- The environment is a parameter: the Unicode tables behind strings.ToLower, strings.TrimSpace and
-- strings.EqualFold, the failures of the disk, the DHCP package (Library in Dhcp/Handler.antt), the
-- functions of the DNS package on names, what a read of a socket returns, the file that is sent, the
-- clock, SHA-256; for ACME the validator, the certificate authority, the certificate parser and what
-- randomID draws; for LDAP the BER decoder, distinguished names, password hashes, and how long a search
-- takes.
--
-- Fuel: the scan of the pool has a step for each number up to the end of the pool, and the loop over
-- the blocks of a file a round for each byte and one more; theorems show that these are enough. The
-- loop over the labels of a name and the climb through its ancestors have one for each byte, and
-- each round takes a byte at least.
--
-- Not modelled: forwarding and the encoding of DNS messages (within a query the registry answers as at
-- one moment); opening of sockets, shutdown and logging; HTTP, TLS and the contents of certificates; of
-- ACME the verification of signatures, the contacts of an account and the checks of a stored snapshot;
-- of LDAP the decoding of packets, the building of the directory and the encoding of entries; NFS; the
-- reading of the configuration; the text of JSON, so that a state file holds the value that was encoded
-- into it.
pub mod Prelude
pub mod Names
pub mod Lease
pub mod Tftp
pub mod Ntp
pub mod Dhcp
pub mod Dns
pub mod Acme
pub mod Auth
pub mod Ldap
