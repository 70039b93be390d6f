-- ===== src/Proofs/Tlsn/Regex.antt =====
-- `isSuspiciousRegex` of packages/sdk/src/proofs/tlsn-validation.ts: its three regular expressions as
-- scans over the code points of the pattern.
use anchr.Prelude.{
  ℕ, zero, suc, String, Bool, true, false, not, ◌&&◌, ◌||◌, List, [], ◌∷◌, Option, none, some,
  nat_eq, codes, if◌then◌else◌, arith, ◌≡◌, refl, ◌++◌, includes, Eq-nat,
}

abbrev pub is_line_end : ℕ → Bool
is_line_end c = nat_eq c 10 || nat_eq c 13 || nat_eq c 8232 || nat_eq c 8233

abbrev pub one_more : Option ℕ → Option ℕ
one_more none = none
one_more (some n) = some (suc n)

-- After `[`: the length of `(?:[^\]\\]|\\.)*\]`, where the class is closed. The flag says that the
-- character before was an escaping backslash (92).
unfoldable pub class_length : Bool → List ℕ → Option ℕ
class_length escaped [] = none
class_length escaped (c ∷ rest) =
    let later = class_length (not escaped && nat_eq c 92) rest in
    if escaped
    then if is_line_end c then none else one_more later
    else if nat_eq c b']'
    then some 1
    else one_more later

abbrev pub or_zero : Option ℕ → ℕ
or_zero none = 0
or_zero (some n) = n

abbrev pub is_class : Option ℕ → Bool
is_class none = false
is_class (some n) = true

-- `pattern.replace(/\[(?:[^\]\\]|\\.)*\]/g, "X")`; the number counts what is left of a class.
unfoldable pub strip_classes : ℕ → List ℕ → List ℕ
strip_classes skip [] = []
strip_classes (suc skip) (c ∷ rest) = strip_classes skip rest
strip_classes zero (c ∷ rest) =
    let length = if nat_eq c b'[' then class_length false rest else none in
    let others = strip_classes (or_zero length) rest in
    (if is_class length then b'X' else c) ∷ others

-- `[+*{]`.
abbrev pub is_repeated : List ℕ → Bool
is_repeated [] = false
is_repeated (c ∷ _) = nat_eq c b'+' || nat_eq c b'*' || nat_eq c b'{'

-- `[^)]*\|[^)]*\)[+*{]`: a bar before the first closing parenthesis, and that repeated.
unfoldable pub alternates : Bool → List ℕ → Bool
alternates bar [] = false
alternates bar (c ∷ rest) =
    let later = alternates (bar || nat_eq c b'|') rest in
    if nat_eq c b')' then bar && is_repeated rest else later

-- `/\([^)]*\|[^)]*\)[+*{]/.test(stripped)`.
unfoldable pub repeated_alternation : List ℕ → Bool
repeated_alternation [] = false
repeated_alternation (c ∷ rest) =
    (nat_eq c b'(' && alternates false rest) || repeated_alternation rest

-- `\)+[+*{]`, after at least one closing parenthesis.
unfoldable pub closed_repeated : List ℕ → Bool
closed_repeated [] = false
closed_repeated (c ∷ rest) = nat_eq c b')' && (is_repeated rest || closed_repeated rest)

-- `/[+*}]\)+[+*{]/.test(stripped)`.
unfoldable pub repeated_repetition : List ℕ → Bool
repeated_repetition [] = false
repeated_repetition (c ∷ rest) =
    ((nat_eq c b'+' || nat_eq c b'*' || nat_eq c b'}') && closed_repeated rest)
    || repeated_repetition rest

unfoldable pub is_suspicious_regex : String → Bool
is_suspicious_regex pattern =
    let stripped = strip_classes 0 (codes pattern) in
    repeated_alternation stripped || repeated_repetition stripped

-- A pattern without a class is left as it is.
strip_classes-plain : (cs : List ℕ) → includes cs b'[' ≡ false → strip_classes 0 cs ≡ cs
unfolding strip_classes includes
strip_classes-plain [] h = refl
strip_classes-plain (c ∷ cs) h = ground (arith, strip_classes-plain cs)

repeated_repetition-within :
    (before after : List ℕ) (q r : ℕ)
    → is_repeated (q ∷ []) ≡ true
    → is_repeated (r ∷ []) ≡ true
    → nat_eq q b'{' ≡ false
    → repeated_repetition (before ++ q ∷ b')' ∷ r ∷ after) ≡ true
unfolding repeated_repetition closed_repeated
repeated_repetition-within [] after q r hq hr h = ground arith
repeated_repetition-within (c ∷ cs) after q r hq hr h =
    ground (arith, repeated_repetition-within cs after q r hq hr h)

-- A pattern without character classes in which a repeated group ends in `+` or `*` is suspicious.
nested_repetition-suspicious :
    (pattern : String) (before after : List ℕ) (q r : ℕ)
    → codes pattern ≡ before ++ q ∷ b')' ∷ r ∷ after
    → includes (codes pattern) b'[' ≡ false
    → is_repeated (q ∷ []) ≡ true
    → is_repeated (r ∷ []) ≡ true
    → nat_eq q b'{' ≡ false
    → is_suspicious_regex pattern ≡ true
unfolding is_suspicious_regex
nested_repetition-suspicious pattern before after q r same plain hq hr h = ground (
  arith,
  strip_classes-plain (codes pattern) plain,
  repeated_repetition-within before after q r hq hr h,
)
