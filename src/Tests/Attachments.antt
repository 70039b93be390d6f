-- ===== src/Tests/Attachments.antt =====
-- Runs of the address rules of attachments on concrete addresses.
use anchr.Prelude.{
  decimal, String, true, false, Option, none, some, ◌≡◌, refl, Eq-string, Eq-nat, codes,
}
use anchr.Attachments.{ParsedUrl, validate_attachment_uri, check_url}
use anchr.Attachments.Addresses.{is_private_ip, is_loopback, equal}
use anchr.Attachments.Safe.{validate_attachment_uri-Reachable, Reachable, NoCredentials}

-- A parser that reads each address as an HTTPS one of that host.
abbrev parse_host : String → Option ParsedUrl
parse_host uri = some (record { protocol = "https:"; username = ""; password = ""; hostname = uri })

accepted_host : validate_attachment_uri parse_host (λ s. s) false "example.com" ≡ none
unfolding validate_attachment_uri check_url is_loopback is_private_ip equal
accepted_host = refl

validate_attachment_uri-Reachable_example :
    (url : ParsedUrl) × (parse_host "example.com" ≡ some url)
    × NoCredentials url
    × Reachable (λ s. s) false url
validate_attachment_uri-Reachable_example =
    validate_attachment_uri-Reachable parse_host (λ s. s) false "example.com" accepted_host

-- A unique local address, a link-local one, the unspecified one, and a name that resolves to the
-- loopback interface pass.
unique_local_passes : validate_attachment_uri parse_host (λ s. s) false "[fd12:3456::1]" ≡ none
unfolding validate_attachment_uri check_url is_loopback is_private_ip equal
unique_local_passes = refl

unspecified_passes : validate_attachment_uri parse_host (λ s. s) false "[::]" ≡ none
unfolding validate_attachment_uri check_url is_loopback is_private_ip equal
unspecified_passes = refl

rooted_localhost_passes : validate_attachment_uri parse_host (λ s. s) false "localhost." ≡ none
unfolding validate_attachment_uri check_url is_loopback is_private_ip equal
rooted_localhost_passes = refl

mapped_private_caught : is_private_ip (codes "[::ffff:a9fe:a9fe]") ≡ true
unfolding is_private_ip equal decimal
mapped_private_caught = refl
