-- ===== src/Tests/Oracles.antt =====
-- The oracles and the quorum at concrete inputs.
use anchr.Prelude.{◌≤◌, true, false, none, some, [], ◌∷◌, ◌≡◌, refl, ◌↔◌, Eq-string}
use anchr.Requests.Types.{Query, QuorumConfig}
use anchr.Oracles.Registry.{get, resolve, resolve_multiple}
use anchr.Oracles.Registry.Laws.{WellKeyed}
use anchr.Oracles.Registry.Distinct.{repeated_oracle_meets_quorum}
use anchr.Oracles.Quorum.{verify_with_quorum}
use anchr.Oracles.Quorum.Threshold.{approvals, quorum_iff}
use anchr.Tests.Data.{simple_query, photo, o1, two_oracles}

abbrev two_of_two : QuorumConfig
two_of_two = record { min_approvals = 2 }

abbrev quorum_query : Query
quorum_query = record simple_query {
  quorum = some two_of_two;
  oracle_ids = some ("o1" ∷ "o2" ∷ []);
}

quorum_iff_example :
    ((verify_with_quorum quorum_query photo
        (resolve two_oracles)
        (some (resolve_multiple two_oracles))
        none
        none).passed
      ≡ true)
    ↔ (2
        ≤ approvals quorum_query photo none
            (resolve_multiple two_oracles (some ("o1" ∷ "o2" ∷ [])) 4))
quorum_iff_example =
    quorum_iff quorum_query photo two_of_two (resolve two_oracles) (resolve_multiple two_oracles)
      none none refl

-- One approval of two is not enough.
quorum_missed :
    (verify_with_quorum quorum_query photo
      (resolve two_oracles)
      (some (resolve_multiple two_oracles))
      none
      none).passed
    ≡ false
unfolding verify_with_quorum resolve_multiple
quorum_missed = refl

two_oracles-WellKeyed : WellKeyed two_oracles
two_oracles-WellKeyed = (refl, (refl, tt))

passed_by_o1 :
    (verify_with_quorum simple_query photo (resolve two_oracles) none none none).passed ≡ true
unfolding verify_with_quorum resolve
passed_by_o1 = refl

o1_resolved : resolve two_oracles (some "o1") (some ("o1" ∷ [])) ≡ some o1
unfolding resolve
o1_resolved = refl

abbrev repeated_query : Query
repeated_query = record quorum_query { oracle_ids = some ("o1" ∷ "o1" ∷ []) }

found_o1 : get two_oracles "o1" ≡ some o1
unfolding get
found_o1 = refl

repeated_oracle_meets_quorum_example :
    (verify_with_quorum repeated_query photo
      (resolve two_oracles)
      (some (resolve_multiple two_oracles))
      none
      none).passed
    ≡ true
repeated_oracle_meets_quorum_example =
    repeated_oracle_meets_quorum two_oracles repeated_query photo (resolve two_oracles) none none
      "o1" o1 1 found_o1 refl refl refl
