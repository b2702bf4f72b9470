-- ===== src/Dhcp/Hostname.antt =====
-- internal/dhcpserver/hostname.go.
use infrastructure_in_a_box.Prelude.{
  ℕ, zero, suc, ◌+◌, ◌*◌, ◌/◌, ◌%◌, ◌||◌, not, List, [], ◌∷◌, ◌++◌, map, none, some, if◌then◌else◌,
  ltb, leb, ◌==◌, length, take, drop, get_or,
}
use infrastructure_in_a_box.Prelude.Text.{Text, bytes, dot, split, join, trim_suffix}
use infrastructure_in_a_box.Dhcp.Request.{Request, option, option_fqdn, hex}

-- "\x00", a name that no registration accepts and that is not absent either.
abbrev pub bad_name : Text
bad_name = 0 ∷ []

-- The bits of the FQDN option's flags.
abbrev pub bit_s : Text → ℕ
bit_s raw = get_or raw 0 0 % 2

abbrev pub bit_e : Text → ℕ
bit_e raw = get_or raw 0 0 / 4 % 2

abbrev pub bit_n : Text → ℕ
bit_n raw = get_or raw 0 0 / 8 % 2

-- The loop over the labels in wire form, with fuel for them.
unfoldable pub wire_name : ℕ → List Text → Text → Text
wire_name zero labels remaining = []
wire_name (suc fuel) labels [] = []
wire_name (suc fuel) labels (n ∷ remaining) =
    let here = labels ++ (take n remaining ∷ []) in
    let rest = wire_name fuel here (drop n remaining) in
    if n == 0
    then (if length remaining == 0 then join dot labels else bad_name)
    else if ltb 63 n || ltb (length remaining) n
    then bad_name
    else if length (drop n remaining) == 0
    then join dot here
    else rest

-- The name in an FQDN option.
unfoldable pub fqdn_name : Text → Text
unfolding wire_name
fqdn_name raw =
    if ltb (length raw) 3 || not (get_or raw 0 0 / 16 == 0) || not (bit_n raw == 0)
    then bad_name
    else if bit_e raw == 0
    then drop 3 raw
    else wire_name (length raw) [] (drop 3 raw)

-- clientHostname. The DHCP package reads the plain hostname option.
unfoldable pub client_hostname : (Request → Text) → Request → Text
unfolding fqdn_name
client_hostname host_name r = elim (option r option_fqdn) [
  | none ↦ host_name r
  | some raw ↦ fqdn_name raw
]

abbrev dash_colon : ℕ → ℕ
dash_colon c = if c == b':' then b'-' else c

-- fallbackHostname. SHA-256 is crypto/sha256's.
unfoldable pub fallback_hostname : (Text → Text) → Text → Text
unfolding hex
fallback_hostname sha256 client =
    let name = bytes "host-" ++ map dash_colon client in
    if length client == 0
    then []
    else if leb (length name) 63
    then name
    else bytes "host-sha256-" ++ hex (take 24 (sha256 client))

-- The labels of a name in wire form, without the root label.
unfoldable pub wire_labels : List Text → Text
wire_labels [] = []
wire_labels (label ∷ labels) = (length label % 256) ∷ (label ++ wire_labels labels)

-- The flags of an FQDN reply: E as the client has it, N or S, and O where S is not the client's.
abbrev pub reply_flags : Text → Text → ℕ
reply_flags raw hostname =
    let s : ℕ = if length hostname == 0 then 0 else 1 in
    bit_e raw * 4 + (if length hostname == 0 then 8 else 1) + (if s == bit_s raw then 0 else 2)

-- fqdnReply on the option that the client sent: the empty text stands for nil.
unfoldable pub fqdn_answer : Text → Text → Text
unfolding wire_labels
fqdn_answer raw hostname =
    let head : Text = reply_flags raw hostname ∷ 0 ∷ 0 ∷ [] in
    let name = trim_suffix hostname (dot ∷ []) in
    if ltb (length raw) 3
    then []
    else if bit_e raw == 0
    then head ++ name
    else if length hostname == 0
    then head ++ (0 ∷ [])
    else head ++ (wire_labels (split dot name) ++ (0 ∷ []))

-- fqdnReply.
unfoldable pub fqdn_reply : Request → Text → Text
unfolding fqdn_answer
fqdn_reply r hostname = elim (option r option_fqdn) [
  | none ↦ []
  | some raw ↦ fqdn_answer raw hostname
]
