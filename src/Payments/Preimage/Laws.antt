-- ===== src/Payments/Preimage/Laws.antt =====
-- Reading the preimage store, and the one hash of each query id:
-- packages/sdk/src/payments/cashu/preimage-store.ts.
use anchr.Prelude.{ℕ, String, false, none, some, Eq-string, ◌==◌, ◌≡◌, refl, arith, if◌then◌else◌}
use anchr.Prelude.Dict.{
  Dict, lookup, lookup-insert, lookup-insert_self, lookup-delete, Values, insert-Values,
}
use anchr.Payments.Preimage.{PreimageStore, create, get_preimage, remove, issue_query_hash}

pub get_preimage-remove :
    (entries : PreimageStore) (hash j : String)
    → get_preimage (remove entries hash) j ≡ (if hash == j then none else get_preimage entries j)
unfolding get_preimage remove
get_preimage-remove entries hash j = ground (arith, lookup-delete hash j entries)

pub get_preimage-create :
    (sha256 : String → String) (entries : PreimageStore) (raw : String) (now : ℕ) (j : String)
    → get_preimage (create sha256 entries raw now).0 j
      ≡ (if sha256 raw == j then some raw else get_preimage entries j)
unfolding get_preimage create
get_preimage-create sha256 entries raw now j = ground (
  arith,
  lookup-insert (sha256 raw) j (record { hash = sha256 raw; preimage = raw; created_at = now })
      entries,
)

-- Every entry's hash is that of its preimage.
abbrev pub Committed : (String → String) → PreimageStore → Type 0
Committed sha256 entries = Values (λ e. sha256 e.preimage ≡ e.hash) entries

pub create-Committed :
    (sha256 : String → String) (entries : PreimageStore) (raw : String) (now : ℕ)
    → Committed sha256 entries
    → Committed sha256 (create sha256 entries raw now).0
unfolding create
create-Committed sha256 entries raw now h =
    insert-Values (λ e. sha256 e.preimage ≡ e.hash) (sha256 raw) _ entries refl h

issue_known :
    (sha256 : String → String) (entries : PreimageStore) (hashes : Dict String String)
    (query_id raw hash : String) (now : ℕ)
    → lookup query_id hashes ≡ some hash
    → issue_query_hash sha256 entries hashes query_id raw now
      ≡ (entries, hashes, record { hash = hash; created = false })
unfolding issue_query_hash
issue_known sha256 entries hashes query_id raw hash now known = rw (known, issue_query_hash)

issue_records :
    (sha256 : String → String) (entries : PreimageStore) (hashes : Dict String String)
    (query_id raw : String) (now : ℕ)
    → let (entries', hashes', issued) = issue_query_hash sha256 entries hashes query_id raw now in
      lookup query_id hashes' ≡ some issued.hash
unfolding issue_query_hash
issue_records sha256 entries hashes query_id raw now =
    ground (arith, lookup-insert_self query_id (create sha256 entries raw now).1.hash hashes)

-- Asking again for the hash of a query id gives the same hash, makes no new one, and changes neither
-- the preimages nor the map of hashes.
issue_twice :
    (sha256 : String → String) (entries : PreimageStore) (hashes : Dict String String)
    (query_id raw raw' : String) (now now' : ℕ)
    → let (entries', hashes', issued) = issue_query_hash sha256 entries hashes query_id raw now in
      issue_query_hash sha256 entries' hashes' query_id raw' now'
      ≡ (entries', hashes', record { hash = issued.hash; created = false })
issue_twice sha256 entries hashes query_id raw raw' now now' =
    let (entries', hashes', issued) = issue_query_hash sha256 entries hashes query_id raw now in
    issue_known sha256 entries' hashes' query_id raw' issued.hash now'
      (issue_records sha256 entries hashes query_id raw now)
