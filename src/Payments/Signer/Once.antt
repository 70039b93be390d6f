-- ===== src/Payments/Signer/Once.antt =====
-- Nonces are used once: packages/sdk/src/payments/frost/frost-signer.ts.
use anchr.Prelude.{
  String, true, false, List, [], ◌∷◌, map, Option, none, some, Eq-string, ◌==◌, is_some, ◌≡◌, refl,
  arith, includes, Distinct, All, Option-cases, Bool-cases, inl, inr, ◌⊎◌,
}
use anchr.Prelude.Dict.{lookup, insert, delete, lookup-insert, lookup-delete, ==_refl}
use anchr.Payments.Signer.{
  PendingSession, PendingSessions, Step, begins, signs, Use, uses, used_by, finish_round1,
  start_round2,
}

-- The ids that round 1 makes are new: different from those in the list and from each other.
abbrev pub FreshIds : List String → List Step → Type 0
FreshIds old [] = Unit
FreshIds old (begins id message r1 ∷ rest) = (includes old id ≡ false) × FreshIds (id ∷ old) rest
FreshIds old (signs id message ∷ rest) = FreshIds old rest

abbrev pub session_ids : List Use → List String
session_ids = map (λ u. u.session_id)

-- A session that is gone is never used again.
never_again :
    (pending : PendingSessions) (old : List String) (steps : List Step) (id : String)
    → includes old id ≡ true
    → lookup id pending ≡ none
    → FreshIds old steps
    → includes (session_ids (uses pending steps)) id ≡ false
unfolding uses includes finish_round1 start_round2
never_again pending old [] id known gone fresh = refl
never_again pending old (begins j message r1 ∷ rest) id known gone fresh =
    let session : PendingSession = record { nonces_json = r1.nonces; message_hex = message } in
    never_again (insert j session pending) (j ∷ old) rest id (ground arith)
      (ground (arith, lookup-insert j id session pending, (Eq-string.beq_iff j id).0)) fresh.1
never_again pending old (signs none message ∷ rest) id known gone fresh =
    never_again pending old rest id known gone fresh
never_again pending old (signs (some j) message ∷ rest) id known gone fresh =
    elim (Option-cases (lookup j pending)) [
      | inl missing ↦ ground (arith, never_again pending old rest id known gone fresh)
      | inr (s, there) ↦ ground (
        arith,
        never_again pending old rest id known gone fresh,
        never_again (delete j pending) old rest id known,
        lookup-delete j id pending,
        (Eq-string.beq_iff j id).0,
      )
    ]

-- The pending sessions have ids from the list.
abbrev pub Known : List String → PendingSessions → Type 0
Known old pending = (j : String) → is_some (lookup j pending) ≡ true → includes old j ≡ true

nonces_once :
    (pending : PendingSessions) (old : List String) (steps : List Step)
    → Known old pending
    → FreshIds old steps
    → Distinct (session_ids (uses pending steps))
unfolding uses includes finish_round1 start_round2
nonces_once pending old [] known fresh = tt
nonces_once pending old (begins j message r1 ∷ rest) known fresh =
    let session : PendingSession = record { nonces_json = r1.nonces; message_hex = message } in
    nonces_once (insert j session pending) (j ∷ old) rest
      (λ k there. ground (arith, known k, lookup-insert j k session pending)) fresh.1
nonces_once pending old (signs none message ∷ rest) known fresh =
    nonces_once pending old rest known fresh
nonces_once pending old (signs (some j) message ∷ rest) known fresh =
    let kept : Known old (delete j pending) =
      λ k there. ground (arith, known k, lookup-delete j k pending) in
    elim (Option-cases (lookup j pending)) [
      | inl missing ↦ ground (arith, nonces_once pending old rest known fresh)
      | inr (s, there) ↦ ground (
        arith,
        nonces_once pending old rest known fresh,
        nonces_once (delete j pending) old rest kept fresh,
        never_again (delete j pending) old rest j (known j (ground arith))
            (ground (arith, lookup-delete j j pending, ==_refl j)) fresh,
      )
    ]

-- The use of nonces is that of a pending session: its nonces, for the message of its round 1.
abbrev pub Pending : PendingSessions → Use → Type 0
Pending pending u =
    (s : PendingSession) × (lookup u.session_id pending ≡ some s)
    × (s.nonces_json ≡ u.nonces)
    × (s.message_hex ≡ u.message)

-- Some step of the history is the round 1 of the use, with its nonces and its message.
abbrev pub Begun : Use → List Step → Type 0
Begun u [] = ⊥
Begun u (begins id message r1 ∷ rest) =
    ((id ≡ u.session_id) × (r1.nonces ≡ u.nonces) × (message ≡ u.message)) ⊎ Begun u rest
Begun u (signs id message ∷ rest) = Begun u rest

used_by-All :
    (Q : Use → Type 0) (id : Option String) (message : String) (n : Option String) (rest : List Use)
    → ((j m : String)
        → id ≡ some j
        → n ≡ some m
        → Q (record { session_id = j; nonces = m; message = message }))
    → All Q rest
    → All Q (used_by id message n rest)
used_by-All Q none message n rest h r = r
used_by-All Q (some j) message none rest h r = r
used_by-All Q (some j) message (some m) rest h r = (h j m refl refl, r)

All-weaken : (P Q : Use → Type 0) (us : List Use) → ((u : Use) → P u → Q u) → All P us → All Q us
All-weaken P Q [] f h = tt
All-weaken P Q (u ∷ us) f h = (f u h.0, All-weaken P Q us f h.1)

start_round2-left :
    (pending : PendingSessions) (id : Option String) (message k : String) (s : PendingSession)
    → lookup k (start_round2 pending id message).0 ≡ some s
    → lookup k pending ≡ some s
unfolding start_round2
start_round2-left pending none message k s h = h
start_round2-left pending (some j) message k s h = ground (arith, lookup-delete j k pending)

start_round2-Pending :
    (pending : PendingSessions) (message j m : String)
    → (start_round2 pending (some j) message).1 ≡ some m
    → Pending pending (record { session_id = j; nonces = m; message = message })
unfolding start_round2
start_round2-Pending pending message j m h = elim (Option-cases (lookup j pending)) [
  | inl missing ↦ absurd (ground arith)
  | inr (s, there) ↦
      (s, there, ground arith, ground (arith, (Eq-string.beq_iff s.message_hex message).0))
]

uses-All :
    (pending : PendingSessions) (steps : List Step)
    → All (λ u. Pending pending u ⊎ Begun u steps) (uses pending steps)
unfolding uses
uses-All pending [] = tt
uses-All pending (begins j message r1 ∷ rest) =
    let session : PendingSession = record { nonces_json = r1.nonces; message_hex = message } in
    All-weaken (λ u. Pending (insert j session pending) u ⊎ Begun u rest) _ _
      (λ u h. elim h [
        | inl (s, there, same, about) ↦ elim (Bool-cases (j == u.session_id)) [
          | inl this ↦ inr (
              inl (
                ground (
                  arith,
                  lookup-insert j u.session_id session pending,
                  (Eq-string.beq_iff j u.session_id).0,
                )))
          | inr other ↦
              inl (s, ground (arith, lookup-insert j u.session_id session pending), same, about)
        ]
        | inr later ↦ inr (inr later)
      ])
      (uses-All (insert j session pending) rest)
uses-All pending (signs id message ∷ rest) =
    used_by-All (λ u. Pending pending u ⊎ Begun u rest) id message _ _
      (λ j m this e. inl (start_round2-Pending pending message j m (rw this at e)))
      (All-weaken (λ u. Pending (start_round2 pending id message).0 u ⊎ Begun u rest) _ _
        (λ u h. elim h [
          | inl (s, there, same, about) ↦
              inl (s, start_round2-left pending id message u.session_id s there, same, about)
          | inr later ↦ inr later
        ])
        (uses-All (start_round2 pending id message).0 rest))

-- In any history of a signer that starts without sessions, if round 1 always makes a new id, the
-- nonces of a session are handed to the signer program at most once, and only for the message that the
-- session's round 1 was asked for.
pub nonces_used_once :
    (steps : List Step)
    → FreshIds [] steps
    → Distinct (session_ids (uses [] steps)) × All (λ u. Begun u steps) (uses [] steps)
unfolding lookup
nonces_used_once steps fresh = (
  nonces_once [] [] steps (λ j there. absurd (ground arith)) fresh,
  All-weaken (λ u. Pending [] u ⊎ Begun u steps) _ _
      (λ u h. elim h [ inl (s, there, same, about) ↦ absurd (ground arith) | inr begun ↦ begun ])
      (uses-All [] steps),
)
