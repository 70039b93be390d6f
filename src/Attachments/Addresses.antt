-- ===== src/Attachments/Addresses.antt =====
-- Hosts as code points, in lower case; lowering leaves the brackets, digits and dots as they are.
use anchr.Prelude.{
  ℕ, ◌+◌, ◌*◌, ◌-◌, ◌/◌, ◌%◌, String, Bool, true, false, not, ◌&&◌, ◌||◌, List, [], ◌∷◌, Option,
  none, some, leb, ltb, nat_eq, if◌then◌else◌, codes, is_some, template, decimal,
}
use anchr.Protocol.Schema.{strip_prefix, is_digit}

abbrev pub starts_with : String → List ℕ → Bool
unfolding strip_prefix
starts_with prefix cs = is_some (strip_prefix (codes prefix) cs)

-- Equality of texts.
unfoldable pub equal : List ℕ → List ℕ → Bool
equal [] [] = true
equal (a ∷ cs) (b ∷ ds) = nat_eq a b && equal cs ds
equal _ _ = false

abbrev pub kept : ℕ → Option (List ℕ) → Option (List ℕ)
kept c none = none
kept c (some cs) = some (c ∷ cs)

abbrev pub inside : List ℕ → Option (List ℕ) → List ℕ
inside whole none = whole
inside whole (some cs) = cs

-- What is left before a closing bracket at the very end.
unfoldable pub before_bracket : List ℕ → Option (List ℕ)
before_bracket [] = none
before_bracket (c ∷ []) = if nat_eq c b']' then some [] else none
before_bracket (c ∷ d ∷ rest) = kept c (before_bracket (d ∷ rest))

unfoldable pub strip_brackets : List ℕ → List ℕ
unfolding before_bracket
strip_brackets [] = []
strip_brackets (c ∷ rest) =
    if nat_eq c b'[' then inside (c ∷ rest) (before_bracket rest) else c ∷ rest

-- Groups of one to three digits with dots between them: `dots` are left, `n` digits were read.
unfoldable pub is_dotted : ℕ → ℕ → List ℕ → Bool
is_dotted dots n [] = nat_eq dots 0 && ltb 0 n
is_dotted dots n (c ∷ rest) =
    let in_group = is_dotted dots (n + 1) rest in
    let next_group = is_dotted (dots - 1) 0 rest in
    if is_digit c then ltb n 3 && in_group else nat_eq c b'.' && ltb 0 n && ltb 0 dots && next_group

-- The value of a digit of `[0-9a-f]`.
abbrev pub hex_value : ℕ → Option ℕ
hex_value c =
    if is_digit c
    then some (c - b'0')
    else if leb b'a' c && leb c b'f'
    then some (c - b'a' + 10)
    else none

abbrev pub add_digit : ℕ → Option ℕ → ℕ
add_digit value none = value
add_digit value (some d) = value * 16 + d

abbrev pub closed : Option ℕ → ℕ → ℕ → Option (ℕ × ℕ)
closed none n value = none
closed (some first) n value = if ltb 0 n then some (first, value) else none

-- `([0-9a-f]{1,4}):([0-9a-f]{1,4})$`: the first value where the second group has begun, the digits
-- read of the group, and their value.
unfoldable pub hex_pair : Option ℕ → ℕ → ℕ → List ℕ → Option (ℕ × ℕ)
hex_pair first n value [] = closed first n value
hex_pair first n value (c ∷ rest) =
    let in_group = hex_pair first (n + 1) (add_digit value (hex_value c)) rest in
    let next_group = hex_pair (some value) 0 0 rest in
    if is_some (hex_value c)
    then if ltb n 4 then in_group else none
    else if nat_eq c b':' && ltb 0 n && not (is_some first)
    then next_group
    else none

-- The patterns `/^172\.(1[6-9]|2\d|3[01])\./` after `172.`.
unfoldable pub is_private_172 : Option (List ℕ) → Bool
is_private_172 (some (a ∷ b ∷ c ∷ rest)) =
    nat_eq c b'.'
    && ((nat_eq a b'1' && leb b'6' b && leb b b'9')
        || (nat_eq a b'2' && is_digit b)
        || (nat_eq a b'3' && leb b'0' b && leb b b'1'))
is_private_172 _ = false

-- `PRIVATE_IPV4_PATTERNS.some((pattern) => pattern.test(host))`.
unfoldable pub is_private_ipv4 : List ℕ → Bool
unfolding strip_prefix is_private_172
is_private_ipv4 host =
    starts_with "127." host
    || starts_with "10." host
    || is_private_172 (strip_prefix (codes "172.") host)
    || starts_with "192.168." host
    || starts_with "169.254." host
    || starts_with "0." host

abbrev pub dotted_quad : ℕ → ℕ → String
dotted_quad hi lo = template (
    decimal (hi / 256 % 256)
    ∷ "."
    ∷ decimal (hi % 256)
    ∷ "."
    ∷ decimal (lo / 256 % 256)
    ∷ "."
    ∷ decimal (lo % 256)
    ∷ [])

-- The address that a mapped one stands for decides.
abbrev pub is_private_hex : List ℕ → Option (ℕ × ℕ) → Bool
is_private_hex host none = is_private_ipv4 host
is_private_hex host (some pair) = is_private_ipv4 (codes (dotted_quad pair.0 pair.1))

abbrev pub is_private_mapped : List ℕ → Option (List ℕ) → Bool
is_private_mapped host none = is_private_ipv4 host
is_private_mapped host (some rest) =
    if is_dotted 3 0 rest
    then is_private_ipv4 rest
    else is_private_hex host (hex_pair none 0 0 rest)

unfoldable pub is_private_ip : List ℕ → Bool
unfolding strip_prefix strip_brackets is_dotted hex_pair is_private_ipv4
is_private_ip hostname =
    let raw = strip_brackets hostname in
    equal raw (codes "::1")
    || starts_with "fe80:" raw
    || starts_with "fc00:" raw
    || starts_with "fd00:" raw
    || is_private_mapped raw (strip_prefix (codes "::ffff:") raw)

-- `^127\.\d{1,3}\.\d{1,3}\.\d{1,3}$` after `127.`.
abbrev pub is_dotted_rest : Option (List ℕ) → Bool
is_dotted_rest none = false
is_dotted_rest (some rest) = is_dotted 2 0 rest

abbrev pub is_hex : ℕ → Bool
is_hex c = is_some (hex_value c)

unfoldable pub hex_to_end : ℕ → List ℕ → Bool
hex_to_end n [] = ltb 0 n
hex_to_end n (c ∷ rest) = let later = hex_to_end (n + 1) rest in is_hex c && ltb n 4 && later

-- `7f[0-9a-f]{2}:[0-9a-f]{1,4}$` after `7f`.
unfoldable pub is_mapped_loopback : Option (List ℕ) → Bool
unfolding hex_to_end
is_mapped_loopback (some (a ∷ b ∷ c ∷ rest)) =
    is_hex a && is_hex b && nat_eq c b':' && hex_to_end 0 rest
is_mapped_loopback _ = false

unfoldable pub is_loopback : List ℕ → Bool
unfolding strip_prefix strip_brackets is_dotted is_mapped_loopback
is_loopback hostname =
    let raw = strip_brackets hostname in
    equal raw (codes "localhost")
    || equal raw (codes "::1")
    || is_dotted_rest (strip_prefix (codes "127.") raw)
    || is_dotted_rest (strip_prefix (codes "::ffff:127.") raw)
    || is_mapped_loopback (strip_prefix (codes "::ffff:7f") raw)
