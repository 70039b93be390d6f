-- ===== src/Proofs/IntegrityStore.antt =====
-- The metadata of attachments, `createIntegrityStore` of packages/sdk/src/proofs/integrity-store.ts: a
-- map keyed by attachment id. The results of the image checks that a record carries are parameters. The
-- cutoff `Date.now() - maxAgeMs` may be negative, so the comparison with it is written as a sum.
pub mod Purge
use anchr.Prelude.{
  ℕ, ◌+◌, ◌*◌, String, Bool, List, [], ◌∷◌, Option, none, some, ltb, if◌then◌else◌, ◌==◌, Eq-string,
  keep,
}
use anchr.Prelude.Dict.{Dict, lookup, insert, delete, values}

pub record IntegrityMetadata (Exif C2pa ProofMode : Type 0) : Type 0 where
  pub attachment_id : String
  pub request_id : String
  pub captured_at : ℕ
  pub exif : Exif
  pub c2pa : C2pa
  pub proofmode : Option ProofMode

abbrev pub IntegrityStore : Type 0 → Type 0 → Type 0 → Type 0
IntegrityStore Exif C2pa ProofMode = Dict String (IntegrityMetadata Exif C2pa ProofMode)

abbrev pub default_max_age_ms : ℕ
default_max_age_ms = 7200000

module _ {Exif C2pa ProofMode : Type 0} where
  unfoldable pub store_metadata :
      IntegrityMetadata Exif C2pa ProofMode
      → IntegrityStore Exif C2pa ProofMode
      → IntegrityStore Exif C2pa ProofMode
  unfolding insert
  store_metadata metadata m = insert metadata.attachment_id metadata m

  unfoldable pub get_metadata :
      String → IntegrityStore Exif C2pa ProofMode → Option (IntegrityMetadata Exif C2pa ProofMode)
  unfolding lookup
  get_metadata attachment_id m = lookup attachment_id m

  unfoldable pub get_for_request :
      String → IntegrityStore Exif C2pa ProofMode → List (IntegrityMetadata Exif C2pa ProofMode)
  get_for_request request_id m = keep (λ v. v.request_id == request_id) (values m)

  -- `value.capturedAt < cutoff`.
  abbrev pub is_outdated : ℕ → ℕ → IntegrityMetadata Exif C2pa ProofMode → Bool
  is_outdated now max_age metadata = ltb (metadata.captured_at + max_age) now

  -- The loop over the entries, which deletes none but the one it is at.
  unfoldable pub purge_entries :
      ℕ
      → ℕ
      → IntegrityStore Exif C2pa ProofMode
      → IntegrityStore Exif C2pa ProofMode
      → ℕ
      → IntegrityStore Exif C2pa ProofMode × ℕ
  unfolding delete
  purge_entries now max_age [] m count = (m, count)
  purge_entries now max_age ((key, v) ∷ rest) m count =
      purge_entries now max_age rest (if is_outdated now max_age v then delete key m else m)
        (if is_outdated now max_age v then count + 1 else count)

  unfoldable pub purge_stale :
      ℕ → ℕ → IntegrityStore Exif C2pa ProofMode → IntegrityStore Exif C2pa ProofMode × ℕ
  unfolding purge_entries
  purge_stale now max_age m = purge_entries now max_age m m 0

  unfoldable pub clear_metadata :
      IntegrityStore Exif C2pa ProofMode → IntegrityStore Exif C2pa ProofMode
  clear_metadata m = []
