-- ===== src/Payments/Preimage.antt =====
-- The preimage store of the HTLC escrow, packages/sdk/src/payments/cashu/preimage-store.ts, with the
-- entry of requests/application/ports.ts. A fresh preimage is an argument, and SHA-256 over its
-- bytes, from hex text to hex text, is the parameter `sha256`.
pub mod Laws
use anchr.Prelude.{ℕ, String, Bool, true, false, Option, none, some, List, [], Eq-string, is_some}
use anchr.Prelude.Dict.{Dict, lookup, insert, delete, has as dict_has}

pub record PreimageEntry : Type 0 where
  pub hash : String
  pub preimage : String
  pub created_at : ℕ

abbrev pub PreimageStore : Type 0
PreimageStore = Dict String PreimageEntry

-- `createPreimage` on the random bytes `raw`.
unfoldable pub create_entry : (String → String) → String → ℕ → PreimageEntry
create_entry sha256 raw now = record { hash = sha256 raw; preimage = raw; created_at = now }

unfoldable pub create :
    (String → String) → PreimageStore → String → ℕ → PreimageStore × PreimageEntry
unfolding create_entry insert
create sha256 entries raw now =
    let entry = create_entry sha256 raw now in (insert entry.hash entry entries, entry)

abbrev pub preimage_of : Option PreimageEntry → Option String
preimage_of none = none
preimage_of (some entry) = some entry.preimage

unfoldable pub get_preimage : PreimageStore → String → Option String
unfolding lookup
get_preimage entries hash = preimage_of (lookup hash entries)

unfoldable pub has : PreimageStore → String → Bool
unfolding lookup
has entries hash = dict_has hash entries

unfoldable pub remove : PreimageStore → String → PreimageStore
unfolding delete
remove entries hash = delete hash entries

-- `issueQueryHash`: one hash for a query id.
pub record IssuedHash : Type 0 where
  pub hash : String
  pub created : Bool

unfoldable pub issue_query_hash :
    (String → String)
    → PreimageStore
    → Dict String String
    → String
    → String
    → ℕ
    → PreimageStore × Dict String String × IssuedHash
unfolding create
issue_query_hash sha256 entries hashes query_id raw now = elim (lookup query_id hashes) [
  | some existing ↦ (entries, hashes, record { hash = existing; created = false })
  | none ↦
      let (entries', entry) = create sha256 entries raw now in
      (entries', insert query_id entry.hash hashes, record { hash = entry.hash; created = true })
]
