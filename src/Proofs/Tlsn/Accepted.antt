-- ===== src/Proofs/Tlsn/Accepted.antt =====
-- What an accepted TLSNotary presentation has passed.
use anchr.Prelude.{
  ℕ, ◌*◌, ◌-◌, ◌≤◌, String, true, List, [], ◌∷◌, ◌++◌, Option, none, some, All, truthy, ◌≡◌, refl,
  arith, Eq-string, leb→le, le→leb,
}
use anchr.Prelude.{Bool-cases, ◌⊎◌, inl, inr}
use anchr.Proofs.ReplayGuard.{ReplayGuard, Seen}
use anchr.Proofs.Tlsn.Types.{TlsnAttestation, TlsnCondition, TlsnRequirement}
use anchr.Proofs.Tlsn.Conditions.{Language, evaluate_condition}
use anchr.Proofs.Tlsn.Verdict.{
  Platform, VerifierBinaryResult, check_server, check_freshness, check_conditions, judge,
  judge_proof, expected_hostname, max_age, is_younger, conditions_of,
}
use anchr.Proofs.Tlsn.Validation.{finish_validate_tlsn}
use mathlib.Core.Option.{get_or}

both_empty {ℓ} : {A : Type ℓ} (xs ys : List A) → xs ++ ys ≡ [] → (xs ≡ []) × (ys ≡ [])
both_empty [] ys h = (refl, h)
both_empty (x ∷ xs) ys h = ground arith

-- Every condition of the list holds of the body.
abbrev pub Satisfied : Language → List TlsnCondition → String → Type 0
Satisfied language cs body = All (λ c. (evaluate_condition language c body).passed ≡ true) cs

check_conditions-Satisfied :
    (language : Language) (cs : List TlsnCondition) (body : String)
    → (check_conditions language cs body).failures ≡ []
    → Satisfied language cs body
unfolding check_conditions judge
check_conditions-Satisfied language [] body h = tt
check_conditions-Satisfied language (c ∷ cs) body h =
    ground (arith, check_conditions-Satisfied language cs body)

Satisfied-no_failures :
    (language : Language) (cs : List TlsnCondition) (body : String)
    → Satisfied language cs body
    → (check_conditions language cs body).failures ≡ []
unfolding check_conditions judge
Satisfied-no_failures language [] body h = refl
Satisfied-no_failures language (c ∷ cs) body h =
    ground (arith, Satisfied-no_failures language cs body h.1)

check_server-match :
    (expected verified : Option String) (host : String)
    → expected ≡ some host
    → truthy host ≡ true
    → (check_server expected verified).failures ≡ []
    → verified ≡ some host
unfolding check_server
check_server-match none verified host named full h = ground arith
check_server-match (some e) none host named full h = ground arith
check_server-match (some e) (some s) host named full h = ground (arith, Eq-string.beq_iff s e)

-- The proof was made at a time that is not in the future, and is young enough.
abbrev pub Fresh : Platform → ℕ → TlsnRequirement → VerifierBinaryResult → Type 0
Fresh platform now requirement crypto =
    (t : ℕ) × (crypto.verified_time ≡ some t)
    × (t * 1000 ≤ now)
    × (is_younger platform (now - t * 1000) (max_age requirement) ≡ true)

check_freshness-Fresh :
    (platform : Platform) (now : ℕ) (requirement : TlsnRequirement) (time : Option ℕ)
    → (check_freshness platform now (max_age requirement) time).failures ≡ []
    → (t : ℕ) × (time ≡ some t)
      × (t * 1000 ≤ now)
      × (is_younger platform (now - t * 1000) (max_age requirement) ≡ true)
unfolding check_freshness
check_freshness-Fresh platform now requirement none h = ground arith
check_freshness-Fresh platform now requirement (some t) h =
    let both : (t * 1000 ≤ now)
        × (is_younger platform (now - t * 1000) (max_age requirement) ≡ true) =
      ground (arith, leb→le (t * 1000) now) in
    (t, refl, both.0, both.1)

check_server-unnamed :
    (expected verified : Option String)
    → (expected ≡ none) ⊎ (expected ≡ some "")
    → (check_server expected verified).failures ≡ []
unfolding check_server
check_server-unnamed expected verified (inl absent) = rw absent refl
check_server-unnamed expected verified (inr blank) = rw blank refl

Fresh-no_failures :
    (platform : Platform) (now : ℕ) (requirement : TlsnRequirement) (crypto : VerifierBinaryResult)
    → Fresh platform now requirement crypto
    → (check_freshness platform now (max_age requirement) crypto.verified_time).failures ≡ []
unfolding check_freshness
Fresh-no_failures platform now requirement crypto (t, timed, past, young) =
    rw timed (ground (arith, le→leb (t * 1000) now past))

judge_proof-Sound :
    (platform : Platform) (now : ℕ) (requirement : TlsnRequirement) (crypto : VerifierBinaryResult)
    (host : String)
    → expected_hostname platform requirement ≡ some host
    → truthy host ≡ true
    → (judge_proof platform now requirement crypto).failures ≡ []
    → (crypto.verified_server_name ≡ some host)
      × Fresh platform now requirement crypto
      × Satisfied platform.language
          (conditions_of requirement.conditions)
          (get_or crypto.verified_body "")
unfolding judge_proof
judge_proof-Sound platform now requirement crypto host named full h =
    let rest = both_empty _ _ h in
    let first = both_empty _ _ rest.0 in
    (
      check_server-match (expected_hostname platform requirement) crypto.verified_server_name host
          named full first.0,
      check_freshness-Fresh platform now requirement crypto.verified_time first.1,
      check_conditions-Satisfied platform.language (conditions_of requirement.conditions)
          (get_or crypto.verified_body "") rest.1,
    )

module _ (platform : Platform) (guard : ReplayGuard) (now added evicted : ℕ)
    (attestation : TlsnAttestation) (requirement : TlsnRequirement) (crypto : VerifierBinaryResult)
    (seen : Seen) where
  -- A presentation without failures for a requirement that names a server has a valid signature, was
  -- made with that server, is fresh, and satisfies every condition.
  pub accepted_presentation :
      (host : String)
      → expected_hostname platform requirement ≡ some host
      → truthy host ≡ true
      → (finish_validate_tlsn platform guard now added evicted attestation requirement crypto
          seen).1.failures
        ≡ []
      → (crypto.signature_valid ≡ true)
        × (crypto.verified_server_name ≡ some host)
        × Fresh platform now requirement crypto
        × Satisfied platform.language
            (conditions_of requirement.conditions)
            (get_or crypto.verified_body "")
  unfolding finish_validate_tlsn
  accepted_presentation host named full h = elim (Bool-cases crypto.signature_valid) [
    | inr invalid ↦ ground (arith, invalid)
    | inl valid ↦
        let sound =
          judge_proof-Sound platform now requirement crypto host named full
            (ground (arith, valid)) in
        (valid, sound.0, sound.1, sound.2)
  ]

  -- If the requirement has no domain hint and its target is not a URL, or its hint is empty, a proof
  -- from any server, or from none, is accepted that is fresh and satisfies the conditions.
  pub unnamed_server_accepted :
      (server : Option String)
      → (expected_hostname platform requirement ≡ none)
        ⊎ (expected_hostname platform requirement ≡ some "")
      → crypto.signature_valid ≡ true
      → Fresh platform now requirement crypto
      → Satisfied platform.language
          (conditions_of requirement.conditions)
          (get_or crypto.verified_body "")
      → (finish_validate_tlsn platform guard now added evicted attestation requirement
          (record crypto { verified_server_name = server })
          seen).1.failures
        ≡ []
  unfolding finish_validate_tlsn judge_proof
  unnamed_server_accepted server unnamed valid fresh satisfied =
      rw
        (
          check_server-unnamed (expected_hostname platform requirement) server unnamed,
          Fresh-no_failures platform now requirement crypto fresh,
          Satisfied-no_failures platform.language (conditions_of requirement.conditions)
              (get_or crypto.verified_body "") satisfied,
          valid,
        )
        refl
