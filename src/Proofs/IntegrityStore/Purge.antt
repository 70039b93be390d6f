-- ===== src/Proofs/IntegrityStore/Purge.antt =====
-- What a history of calls leaves in the store of packages/sdk/src/proofs/integrity-store.ts, and what
-- a purge takes out of it.
use anchr.Prelude.{
  ◌≤◌, ◌<◌, ◌⊎◌, inl, inr, ltb, Bool-cases, ℕ, ◌+◌, String, false, List, [], ◌∷◌, Option, none,
  some, if◌then◌else◌, Eq-string, ◌≡◌, refl, arith, Distinct, includes, All,
}
use anchr.Prelude.Dict.{
  lookup, insert, delete, keys, lookup-delete, insert-Distinct, delete-Distinct,
}
use anchr.Proofs.IntegrityStore.{
  IntegrityMetadata, IntegrityStore, store_metadata, get_metadata, is_outdated, purge_entries,
  purge_stale, clear_metadata,
}

pub data Call (Exif C2pa ProofMode : Type 0) : Type 0 where
  stored : IntegrityMetadata Exif C2pa ProofMode → Call Exif C2pa ProofMode
  purged : ℕ → ℕ → Call Exif C2pa ProofMode
  cleared : Call Exif C2pa ProofMode

module _ {Exif C2pa ProofMode : Type 0} where
  abbrev pub after_call :
      Call Exif C2pa ProofMode
      → IntegrityStore Exif C2pa ProofMode
      → IntegrityStore Exif C2pa ProofMode
  after_call (stored metadata) m = store_metadata metadata m
  after_call (purged now max_age) m = (purge_stale now max_age m).0
  after_call cleared m = clear_metadata m

  -- The calls, the latest one first.
  abbrev pub after_history : List (Call Exif C2pa ProofMode) → IntegrityStore Exif C2pa ProofMode
  after_history [] = []
  after_history (call ∷ earlier) = after_call call (after_history earlier)

  -- Each attachment stands once, and under its own id.
  abbrev pub Keyed : IntegrityStore Exif C2pa ProofMode → Type 0
  Keyed m = Distinct (keys m) × All (λ p. p.0 ≡ p.1.attachment_id) m

  insert-own :
      (v : IntegrityMetadata Exif C2pa ProofMode) (m : IntegrityStore Exif C2pa ProofMode)
      → All (λ p. p.0 ≡ p.1.attachment_id) m
      → All (λ p. p.0 ≡ p.1.attachment_id) (insert v.attachment_id v m)
  unfolding insert
  insert-own v [] h = (refl, tt)
  insert-own v ((j, w) ∷ m) h = ground (arith, insert-own v m h.1)

  delete-own :
      (id : String) (m : IntegrityStore Exif C2pa ProofMode)
      → All (λ p. p.0 ≡ p.1.attachment_id) m
      → All (λ p. p.0 ≡ p.1.attachment_id) (delete id m)
  unfolding delete
  delete-own id [] h = tt
  delete-own id ((j, w) ∷ m) h = ground (arith, delete-own id m h.1)

  purge_entries-Keyed :
      (now max_age : ℕ) (rest m : IntegrityStore Exif C2pa ProofMode) (count : ℕ)
      → Keyed m
      → Keyed (purge_entries now max_age rest m count).0
  unfolding purge_entries
  purge_entries-Keyed now max_age [] m count h = h
  purge_entries-Keyed now max_age ((key, v) ∷ rest) m count h =
      purge_entries-Keyed now max_age rest _ _
        (ground (arith, delete-Distinct key m h.0, delete-own key m h.1))

  after_call-Keyed :
      (call : Call Exif C2pa ProofMode) (m : IntegrityStore Exif C2pa ProofMode)
      → Keyed m
      → Keyed (after_call call m)
  unfolding store_metadata purge_stale clear_metadata
  after_call-Keyed (stored v) m h = (insert-Distinct v.attachment_id v m h.0, insert-own v m h.1)
  after_call-Keyed (purged now max_age) m h = purge_entries-Keyed now max_age m m 0 h
  after_call-Keyed cleared m h = (tt, tt)

  after_history-Keyed : (calls : List (Call Exif C2pa ProofMode)) → Keyed (after_history calls)
  after_history-Keyed [] = (tt, tt)
  after_history-Keyed (call ∷ earlier) = after_call-Keyed call _ (after_history-Keyed earlier)

  -- What a loop over entries leaves of what stood under an id.
  abbrev pub left_over :
      ℕ
      → ℕ
      → Option (IntegrityMetadata Exif C2pa ProofMode)
      → Option (IntegrityMetadata Exif C2pa ProofMode)
      → Option (IntegrityMetadata Exif C2pa ProofMode)
  left_over now max_age none old = old
  left_over now max_age (some v) old = if is_outdated now max_age v then none else old

  not_there :
      (id : String) (rest : IntegrityStore Exif C2pa ProofMode)
      → includes (keys rest) id ≡ false
      → lookup id rest ≡ none
  unfolding lookup includes
  not_there id [] h = refl
  not_there id ((j, v) ∷ rest) h = ground (arith, not_there id rest)

  lookup-purge_entries :
      (now max_age : ℕ) (rest m : IntegrityStore Exif C2pa ProofMode) (count : ℕ) (id : String)
      → Distinct (keys rest)
      → lookup id (purge_entries now max_age rest m count).0
        ≡ left_over now max_age (lookup id rest) (lookup id m)
  unfolding purge_entries lookup
  lookup-purge_entries now max_age [] m count id h = refl
  lookup-purge_entries now max_age ((key, v) ∷ rest) m count id h =
      let stale = is_outdated now max_age v in
      ground (
        arith,
        lookup-purge_entries now max_age rest (if stale then delete key m else m)
            (if stale then count + 1 else count) id h.1,
        lookup-delete key id m,
        not_there key rest h.0,
        Eq-string.beq_iff key id,
      )

  -- What a purge makes of what stood under an id: it stays if it was captured within the age.
  abbrev pub Purged :
      ℕ
      → ℕ
      → Option (IntegrityMetadata Exif C2pa ProofMode)
      → Option (IntegrityMetadata Exif C2pa ProofMode)
      → Type 0
  Purged now max_age before after =
      ((before ≡ none) × (after ≡ none))
      ⊎ (((v : IntegrityMetadata Exif C2pa ProofMode) × (before ≡ some v)
            × (after ≡ some v)
            × (now ≤ v.captured_at + max_age))
          ⊎ ((v : IntegrityMetadata Exif C2pa ProofMode) × (before ≡ some v)
              × (after ≡ none)
              × (v.captured_at + max_age < now)))

  left_over-Purged :
      (now max_age : ℕ) (found : Option (IntegrityMetadata Exif C2pa ProofMode))
      → Purged now max_age found (left_over now max_age found found)
  left_over-Purged now max_age none = inl (refl, refl)
  left_over-Purged now max_age (some v) = elim (Bool-cases (ltb (v.captured_at + max_age) now)) [
    | inl old ↦ inr (inr (v, refl, rw old refl, ground (arith, old)))
    | inr young ↦ inr (inl (v, refl, rw young refl, ground (arith, young)))
  ]

  -- After any history of stores, purges and clears, each attachment stands once and under its own id.
  -- A purge then takes out exactly the records whose capture is further back than the age: every other
  -- one is found as before.
  pub get-purge_stale :
      (calls : List (Call Exif C2pa ProofMode)) (now max_age : ℕ) (id : String)
      → Keyed (after_history calls)
        × Purged now max_age
            (get_metadata id (after_history calls))
            (get_metadata id (purge_stale now max_age (after_history calls)).0)
  unfolding get_metadata purge_stale
  get-purge_stale calls now max_age id =
      let h = after_history-Keyed calls in
      (
        h,
        rw (lookup-purge_entries now max_age (after_history calls) (after_history calls) 0 id h.0)
            (left_over-Purged now max_age (lookup id (after_history calls))),
      )
