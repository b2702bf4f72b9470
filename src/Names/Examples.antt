-- ===== src/Names/Examples.antt =====
-- Concrete cases of the theorems on names.
use infrastructure_in_a_box.Prelude.{◌≡◌, ◌⊎◌, []}
use infrastructure_in_a_box.Prelude.Text.{Text, Unicode, bytes}
use infrastructure_in_a_box.Names.Hostname.{
  canonical_domain, normalize_hostname, IsHostname, normalize_hostname_result,
  normalize_hostname_idem,
}

abbrev plain : Unicode
plain = record { lower = λ s. s; trim = λ s. s }

abbrev box : Text
box = bytes "Box.Lan"

normalize_hostname_result_example :
    (normalize_hostname plain (bytes " Desk.") box ≡ [])
    ⊎ IsHostname (canonical_domain plain box) (normalize_hostname plain (bytes " Desk.") box)
normalize_hostname_result_example = normalize_hostname_result plain (bytes " Desk.") box

normalize_hostname_idem_example :
    normalize_hostname plain (normalize_hostname plain (bytes " Desk.") box) box
    ≡ normalize_hostname plain (bytes " Desk.") box
normalize_hostname_idem_example = normalize_hostname_idem plain (bytes " Desk.") box
