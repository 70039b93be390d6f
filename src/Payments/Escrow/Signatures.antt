-- ===== src/Payments/Escrow/Signatures.antt =====
-- `appendFrostP2PKGroupSignatures` of packages/sdk/src/payments/cashu/frost-escrow-provider.ts.
use anchr.Prelude.{
  ℕ, suc, String, List, [], ◌∷◌, ◌++◌, Option, none, some, nat_eq, length, decimal, if◌then◌else◌,
  ◌==◌, Eq-string, ◌≡◌, refl, arith,
}
use anchr.Prelude.Dict.{==_refl}
use anchr.Prelude.Json.{Json, Elements, Members, property}

-- A proof: its witness may be absent, a text, or an object; the other members are kept as they are.
pub record Proof (Rest : Type 0) : Type 0 where
  pub witness : Option Json
  pub rest : Rest

-- The members that `{ ...value }` takes from an object, or from an array by its indices.
unfoldable pub indexed : ℕ → Elements → Members
indexed n Elements.empty = Members.bare
indexed n (Elements.element value rest) = Members.member (decimal n) value (indexed (suc n) rest)

abbrev pub as_record : Option Json → Members
as_record (some (Json.object p)) = p
as_record (some (Json.array xs)) = indexed 0 xs
as_record _ = Members.bare

unfoldable pub parse_witness : (String → Option Json) → Option Json → Members
parse_witness parse (some (Json.text s)) = as_record (parse s)
parse_witness parse witness = as_record witness

abbrev pub add_text : Json → List String → List String
add_text (Json.text s) rest = s ∷ rest
add_text _ rest = rest

-- `filter((entry) => typeof entry === "string")`.
unfoldable pub text_entries : Elements → List String
text_entries Elements.empty = []
text_entries (Elements.element value rest) = add_text value (text_entries rest)

abbrev pub signature_entries : Option Json → List String
signature_entries (some (Json.array xs)) = text_entries xs
signature_entries _ = []

unfoldable pub get_witness_signatures : Members → List String
get_witness_signatures witness = signature_entries (property "signatures" witness)

unfoldable pub text_array : List String → Elements
text_array [] = Elements.empty
text_array (s ∷ rest) = Elements.element (Json.text s) (text_array rest)

-- `{ ...p, [name]: value }`: a name that is there keeps its place.
unfoldable pub set_property : String → Json → Members → Members
set_property name value Members.bare = Members.member name value Members.bare
set_property name value (Members.member key old rest) =
    if key == name
    then Members.member key value rest
    else Members.member key old (set_property name value rest)

module _ (parse : String → Option Json) (stringify : Json → String) where
  unfoldable pub signed_witness : Option Json → String → Json
  signed_witness witness signature =
      let p = parse_witness parse witness in
      Json.object (
        set_property "signatures"
          (Json.array (text_array (get_witness_signatures p ++ signature ∷ []))) p)

module _ {Rest : Type 0} (parse : String → Option Json) (stringify : Json → String) where
  abbrev pub append_one : Proof Rest → String → Proof Rest
  append_one proof signature = record proof {
    witness = some (Json.text (stringify (signed_witness parse stringify proof.witness signature)));
  }

  unfoldable pub append_all : List (Proof Rest) → List String → List (Proof Rest)
  append_all [] signatures = []
  append_all (proof ∷ proofs) [] = []
  append_all (proof ∷ proofs) (signature ∷ signatures) =
      append_one proof signature ∷ append_all proofs signatures

  -- `none` where it throws: the two lists differ in length.
  unfoldable pub append_frost_p2pk_group_signatures :
      List (Proof Rest) → List String → Option (List (Proof Rest))
  append_frost_p2pk_group_signatures proofs signatures =
      if nat_eq (length proofs) (length signatures)
      then some (append_all proofs signatures)
      else none

  -- The signatures that a witness holds.
  abbrev pub signatures_of : Proof Rest → List String
  signatures_of proof = get_witness_signatures (parse_witness parse proof.witness)

property-set :
    (name : String) (value : Json) (p : Members)
    → property name (set_property name value p) ≡ some value
unfolding property set_property
property-set name value Members.bare = rw (==_refl name) refl
property-set name value (Members.member key old rest) = ground (arith, property-set name value rest)

-- The members of other names, in their order.
unfoldable pub without : String → Members → Members
without name Members.bare = Members.bare
without name (Members.member key value rest) =
    let others = without name rest in
    if key == name then others else Members.member key value others

without-set_property :
    (name : String) (value : Json) (p : Members)
    → without name (set_property name value p) ≡ without name p
unfolding without set_property
without-set_property name value Members.bare = rw (==_refl name) refl
without-set_property name value (Members.member key old rest) =
    ground (arith, without-set_property name value rest)

text_entries-array : (xs : List String) → text_entries (text_array xs) ≡ xs
unfolding text_entries text_array
text_entries-array [] = refl
text_entries-array (s ∷ rest) = rw (text_entries-array rest) refl

module _ {Rest : Type 0} (parse : String → Option Json) (stringify : Json → String) where
  signatures-append_one :
      (proof : Proof Rest) (signature : String)
      → parse (stringify (signed_witness parse stringify proof.witness signature))
        ≡ some (signed_witness parse stringify proof.witness signature)
      → signatures_of parse stringify (append_one parse stringify proof signature)
        ≡ signatures_of parse stringify proof ++ signature ∷ []
  unfolding parse_witness get_witness_signatures signed_witness
  signatures-append_one proof signature back =
      rw
        (
          back,
          property-set "signatures" _ (parse_witness parse proof.witness),
          text_entries-array
              (get_witness_signatures (parse_witness parse proof.witness) ++ signature ∷ []),
        )
        refl

  append_one-without :
      (proof : Proof Rest) (signature : String)
      → parse (stringify (signed_witness parse stringify proof.witness signature))
        ≡ some (signed_witness parse stringify proof.witness signature)
      → without "signatures"
          (parse_witness parse (append_one parse stringify proof signature).witness)
        ≡ without "signatures" (parse_witness parse proof.witness)
  unfolding parse_witness signed_witness
  append_one-without proof signature back =
      rw back (without-set_property "signatures" _ (parse_witness parse proof.witness))

  -- Each proof, in order, gets its own group signature behind the signatures that it had, and keeps
  -- the other members of its witness and the rest of the proof.
  abbrev pub Appended : List (Proof Rest) → List String → List (Proof Rest) → Type 0
  Appended [] [] [] = Unit
  Appended (proof ∷ proofs) (signature ∷ signatures) (signed ∷ others) =
      (signatures_of parse stringify signed ≡ signatures_of parse stringify proof ++ signature ∷ [])
      × (without "signatures" (parse_witness parse signed.witness)
          ≡ without "signatures" (parse_witness parse proof.witness))
      × (signed.rest ≡ proof.rest)
      × Appended proofs signatures others
  Appended _ _ _ = ⊥

  -- JSON reads back the witnesses that are written.
  abbrev pub ReadBack : List (Proof Rest) → List String → Type 0
  ReadBack (proof ∷ proofs) (signature ∷ signatures) =
      (parse (stringify (signed_witness parse stringify proof.witness signature))
        ≡ some (signed_witness parse stringify proof.witness signature))
      × ReadBack proofs signatures
  ReadBack _ _ = Unit

  append_all-Appended :
      (proofs : List (Proof Rest)) (signatures : List String)
      → length proofs ≡ length signatures
      → ReadBack proofs signatures
      → Appended proofs signatures (append_all parse stringify proofs signatures)
  unfolding append_all
  append_all-Appended [] [] same back = tt
  append_all-Appended [] (s ∷ ss) same back = omega (arith, same)
  append_all-Appended (p ∷ ps) [] same back = omega (arith, same)
  append_all-Appended (p ∷ ps) (s ∷ ss) same back = (
    signatures-append_one p s back.0,
    append_one-without p s back.0,
    refl,
    append_all-Appended ps ss (omega (arith, same)) back.1,
  )

  -- Where group signatures are appended, there is one for each proof, and each proof, in order,
  -- gets its own behind the signatures that its witness had; every other member of the witness, and
  -- the rest of the proof, are as before, if JSON reads back the witnesses.
  pub append_frost_p2pk_group_signatures-Appended :
      (proofs : List (Proof Rest)) (signatures : List String) (signed : List (Proof Rest))
      → ReadBack proofs signatures
      → append_frost_p2pk_group_signatures parse stringify proofs signatures ≡ some signed
      → (length proofs ≡ length signatures) × Appended proofs signatures signed
  unfolding append_frost_p2pk_group_signatures
  append_frost_p2pk_group_signatures-Appended proofs signatures signed back h =
      let same : length proofs ≡ length signatures = ground arith in
      let result : signed ≡ append_all parse stringify proofs signatures = ground arith in
      (same, rw result (append_all-Appended proofs signatures same back))
