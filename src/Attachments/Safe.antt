-- ===== src/Attachments/Safe.antt =====
-- What holds of an attachment URI that is accepted, and which hosts are caught.
use anchr.Prelude.{
  String, Bool, true, false, Option, none, some, truthy, codes, ◌≡◌, arith, ◌⊎◌, inl, inr,
  Eq-string, Bool-cases, Option-cases,
}
use anchr.Attachments.{ParsedUrl, check_url, validate_attachment_uri}
use anchr.Attachments.Addresses.{is_loopback, is_private_ip}

-- The address is a loopback one in a configuration that allows these, over HTTPS or HTTP, or one over
-- HTTPS that is neither a loopback nor a private one.
abbrev pub Reachable : (String → String) → Bool → ParsedUrl → Type 0
Reachable to_lower allow_localhost url =
    ((is_loopback (codes (to_lower url.hostname)) ≡ true)
      × (allow_localhost ≡ true)
      × ((url.protocol ≡ "https:") ⊎ (url.protocol ≡ "http:")))
    ⊎ ((is_loopback (codes (to_lower url.hostname)) ≡ false)
        × (is_private_ip (codes (to_lower url.hostname)) ≡ false)
        × (url.protocol ≡ "https:"))

abbrev pub NoCredentials : ParsedUrl → Type 0
NoCredentials url = (truthy url.username ≡ false) × (truthy url.password ≡ false)

check_url-Reachable :
    (to_lower : String → String) (allow_localhost : Bool) (url : ParsedUrl)
    → check_url to_lower allow_localhost url ≡ none
    → NoCredentials url × Reachable to_lower allow_localhost url
unfolding check_url
check_url-Reachable to_lower allow_localhost url h =
    elim (Bool-cases (is_loopback (codes (to_lower url.hostname)))) [
      | inl loopback ↦
          grind
            (arith, Eq-string.beq_iff url.protocol "https:", Eq-string.beq_iff url.protocol "http:")
      | inr outside ↦
          grind
            (arith, Eq-string.beq_iff url.protocol "https:", Eq-string.beq_iff url.protocol "http:")
    ]

-- An accepted URI parses to an address without credentials that is reachable: a loopback one only
-- where the configuration allows it, and else one over HTTPS whose host is not recognized as private.
pub validate_attachment_uri-Reachable :
    (parse : String → Option ParsedUrl) (to_lower : String → String) (allow_localhost : Bool)
    (uri : String)
    → validate_attachment_uri parse to_lower allow_localhost uri ≡ none
    → (url : ParsedUrl) × (parse uri ≡ some url)
      × NoCredentials url
      × Reachable to_lower allow_localhost url
unfolding validate_attachment_uri
validate_attachment_uri-Reachable parse to_lower allow_localhost uri h =
    elim (Option-cases (parse uri)) [
      | inl invalid ↦ ground (arith, invalid)
      | inr (url, parsed) ↦
          let safe = check_url-Reachable to_lower allow_localhost url (ground (arith, parsed)) in
          (url, parsed, safe.0, safe.1)
    ]
