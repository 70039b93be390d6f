-- ===== src/Attachments.antt =====
-- The addresses that the oracle may fetch attachments from:
-- packages/sdk/src/attachments/url-validation.ts. Its regular expressions are scans over code points.
pub mod Addresses
pub mod Safe
use anchr.Prelude.{
  String, Bool, true, false, not, ◌&&◌, ◌||◌, Option, none, some, if◌then◌else◌, ◌==◌, Eq-string,
  truthy, codes,
}
use anchr.Attachments.Addresses.{is_loopback, is_private_ip}

-- The parts of a parsed URL that are read.
pub record ParsedUrl : Type 0 where
  pub protocol : String
  pub username : String
  pub password : String
  pub hostname : String

unfoldable pub check_url : (String → String) → Bool → ParsedUrl → Option String
check_url to_lower allow_localhost url =
    let loopback = is_loopback (codes (to_lower url.hostname)) in
    if truthy url.username || truthy url.password
    then some "URLs with embedded credentials are not allowed"
    else if loopback && not allow_localhost
    then some
        "URLs pointing to localhost are not allowed (set ANCHR_ALLOW_LOCALHOST_ATTACHMENTS=1 for local development)"
    else if url.protocol == "http:" && not loopback
    then some "Only HTTPS URLs are allowed"
    else if not (url.protocol == "https:") && not (url.protocol == "http:")
    then some "Only HTTPS URLs are allowed"
    else if not loopback && is_private_ip (codes (to_lower url.hostname))
    then some "URLs pointing to private/internal networks are not allowed"
    else none

abbrev pub check_parsed : (String → String) → Bool → Option ParsedUrl → Option String
check_parsed to_lower allow_localhost none = some "Invalid URL"
check_parsed to_lower allow_localhost (some url) = check_url to_lower allow_localhost url

-- `none` says that the URI is valid. `parse` is `new URL(uri)`, `to_lower` is `toLowerCase`, and the
-- flag is the configuration's `allowLocalhostAttachments`.
unfoldable pub validate_attachment_uri :
    (String → Option ParsedUrl) → (String → String) → Bool → String → Option String
validate_attachment_uri parse to_lower allow_localhost uri =
    check_parsed to_lower allow_localhost (parse uri)
