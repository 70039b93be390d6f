-- ===== src/Prelude/Json.antt =====
-- Values of JSON, as `JSON.parse` returns them, and the tests of the language on them.
use Prim.Native.Nat.{ℕ}
use Prim.Native.String.{String}
use mathlib.Core.Bool.{Bool, false}
use mathlib.Core.Option.{Option, none, some}
use anchr.Prelude.Tests.{if◌then◌else◌, ◌==◌, Eq-string, is_some, nat_eq}

-- A finite number: a natural number (`-0` is 0), or another one by its text.
pub data Numeral : Type 0 where
  natural : ℕ → Numeral
  other : String → Numeral

mutual
  pub data Json : Type 0 where
    null : Json
    truth : Bool → Json
    number : Numeral → Json
    text : String → Json
    array : Elements → Json
    object : Members → Json

  pub data Elements : Type 0 where
    empty : Elements
    element : Json → Elements → Elements

  pub data Members : Type 0 where
    bare : Members
    member : String → Json → Members → Members

-- `p[name]`, `none` for `undefined`.
unfoldable pub property : String → Members → Option Json
property name bare = none
property name (member key value rest) = if key == name then some value else property name rest

-- `name in p`.
abbrev pub has_property : String → Members → Bool
has_property name p = is_some (property name p)

-- A member whose value may be `undefined`, which `JSON.stringify` leaves out.
abbrev pub optional : String → Option Json → Members → Members
optional name none rest = rest
optional name (some value) rest = member name value rest

-- `typeof v === "object" && v !== null`; an array has no members of the names that are read.
abbrev pub as_object : Option Json → Option Members
as_object (some (object p)) = some p
as_object (some (array _)) = some bare
as_object _ = none

-- The value under a name where `typeof` says `"string"`.
abbrev pub as_text : Option Json → Option String
as_text (some (text s)) = some s
as_text _ = none

-- The value where `typeof` says `"number"`.
abbrev pub as_number : Option Json → Option Numeral
as_number (some (number n)) = some n
as_number _ = none

-- `v === literal`.
abbrev pub is_text : String → Option Json → Bool
is_text literal (some (text s)) = s == literal
is_text literal _ = false

abbrev pub is_natural : ℕ → Option Json → Bool
is_natural n (some (number (natural m))) = nat_eq m n
is_natural n _ = false
