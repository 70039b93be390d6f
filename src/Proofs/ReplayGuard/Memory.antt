-- ===== src/Proofs/ReplayGuard/Memory.antt =====
-- How long the guard remembers a key: packages/sdk/src/proofs/replay-guard.ts.
use anchr.Prelude.{
  ℕ, suc, ◌+◌, ◌≤◌, ◌<◌, String, true, List, [], ◌∷◌, none, Eq-string, length, All, is_some, ◌≡◌,
  ◌⊎◌, inl, inr, arith,
}
use anchr.Prelude.Dict.{lookup, insert, size-insert-le}
use anchr.Proofs.ReplayGuard.{
  Seen, ReplayGuard, evict_stale, evict_excess, evict, has, add, Call, looks, adds, clears,
  after_call, after_calls,
}

-- The key stands in the map, written at `t` or later, with at most `n` keys behind it.
abbrev pub Held : String → ℕ → ℕ → Seen → Type 0
Held key t n [] = ⊥
Held key t n ((k, at_time) ∷ rest) =
    ((k ≡ key) × (t ≤ at_time) × (length rest ≤ n)) ⊎ Held key t n rest

Held-more : (key : String) (t n : ℕ) (seen : Seen) → Held key t n seen → Held key t (n + 1) seen
Held-more key t n [] h = absurd h
Held-more key t n ((k, at_time) ∷ rest) (inl (e, young, few)) = inl (e, young, omega arith)
Held-more key t n ((k, at_time) ∷ rest) (inr h) = inr (Held-more key t n rest h)

Held-insert :
    (key k : String) (t n now : ℕ) (seen : Seen)
    → t ≤ now
    → Held key t n seen
    → Held key t (n + 1) (insert k now seen)
unfolding insert
Held-insert key k t n now [] later h = absurd h
Held-insert key k t n now ((j, at_time) ∷ rest) later (inl (e, young, few)) =
    ground (arith, (Eq-string.beq_iff j k).0, size-insert-le k now rest)
Held-insert key k t n now ((j, at_time) ∷ rest) later (inr h) =
    ground (arith, Held-insert key k t n now rest later h, Held-more key t n rest h)

Held-insert_new :
    (key : String) (now : ℕ) (seen : Seen)
    → lookup key seen ≡ none
    → Held key now 0 (insert key now seen)
unfolding insert lookup
Held-insert_new key now [] h = ground arith
Held-insert_new key now ((j, at_time) ∷ rest) h = ground (arith, Held-insert_new key now rest)

Held-evict_stale :
    (key : String) (t n retention now : ℕ) (seen : Seen)
    → now ≤ t + retention
    → Held key t n seen
    → Held key t n (evict_stale retention now seen)
unfolding evict_stale
Held-evict_stale key t n retention now [] early h = absurd h
Held-evict_stale key t n retention now ((j, at_time) ∷ rest) early (inl (e, young, few)) =
    ground arith
Held-evict_stale key t n retention now ((j, at_time) ∷ rest) early (inr h) =
    ground (arith, Held-evict_stale key t n retention now rest early h)

Held-evict_excess :
    (key : String) (t n max : ℕ) (seen : Seen)
    → n < max
    → Held key t n seen
    → Held key t n (evict_excess max seen)
unfolding evict_excess
Held-evict_excess key t n max [] room h = absurd h
Held-evict_excess key t n max ((j, at_time) ∷ rest) room (inl (e, young, few)) = ground arith
Held-evict_excess key t n max ((j, at_time) ∷ rest) room (inr h) =
    ground (arith, Held-evict_excess key t n max rest room h)

Held-evict :
    (guard : ReplayGuard) (key : String) (t n now : ℕ) (seen : Seen)
    → now ≤ t + guard.retention
    → n < guard.max
    → Held key t n seen
    → Held key t n (evict guard now seen)
unfolding evict
Held-evict guard key t n now seen early room h =
    Held-evict_excess key t n guard.max _ room
      (Held-evict_stale key t n guard.retention now seen early h)

Held-lookup :
    (key : String) (t n : ℕ) (seen : Seen) → Held key t n seen → is_some (lookup key seen) ≡ true
unfolding lookup
Held-lookup key t n [] h = absurd h
Held-lookup key t n ((k, at_time) ∷ rest) (inl (e, young, few)) =
    ground (arith, (Eq-string.beq_iff k key).1 e)
Held-lookup key t n ((k, at_time) ∷ rest) (inr h) = ground (arith, Held-lookup key t n rest h)

-- The call is made at `t` or later, reads the clock last within the retention from `t`, and is no
-- `clear`.
abbrev pub Within : ReplayGuard → ℕ → Call → Type 0
Within guard t (looks now key) = now ≤ t + guard.retention
Within guard t (adds now later key) = (t ≤ now) × (later ≤ t + guard.retention)
Within guard t clears = ⊥

-- The number of keys that the calls add.
abbrev pub added : List Call → ℕ
added [] = 0
added (adds now later key ∷ cs) = suc (added cs)
added (_ ∷ cs) = added cs

Held-calls :
    (guard : ReplayGuard) (key : String) (t n : ℕ) (cs : List Call) (seen : Seen)
    → All (Within guard t) cs
    → n + added cs < guard.max
    → Held key t n seen
    → Held key t (n + added cs) (after_calls guard cs seen)
unfolding after_calls after_call has add
Held-calls guard key t n [] seen h room held = ground arith
Held-calls guard key t n (looks now k ∷ cs) seen h room held =
    Held-calls guard key t n cs (evict guard now seen) h.1 room
      (Held-evict guard key t n now seen h.0 (omega arith) held)
Held-calls guard key t n (adds now later k ∷ cs) seen h room held =
    let m : (n + 1) + added cs ≡ n + suc (added cs) = omega arith in
    rw m at (
      Held-calls guard key t (n + 1) cs _ h.1 (omega arith) (
        Held-evict guard key t (n + 1) later _ h.0.1 (omega arith)
          (Held-insert key k t n now seen h.0.0 held)))
Held-calls guard key t n (clears ∷ cs) seen h room held = absurd h.0

-- A key that was not in the map and is added at `t` is still known at any time within the retention
-- from `t`, if fewer keys than the cap are added in between and the guard is not cleared: a
-- presentation that is replayed by then is refused.
pub remembered :
    (guard : ReplayGuard) (key : String) (t later last : ℕ) (cs : List Call) (seen : Seen)
    → lookup key seen ≡ none
    → later ≤ t + guard.retention
    → last ≤ t + guard.retention
    → All (Within guard t) cs
    → added cs < guard.max
    → (has guard last key (after_calls guard cs (add guard t later key seen))).1 ≡ true
unfolding has add
remembered guard key t later last cs seen fresh early late h room =
    Held-lookup key t (0 + added cs) _ (
      Held-evict guard key t (0 + added cs) last _ late (omega arith) (
        Held-calls guard key t 0 cs _ h (omega arith) (
          Held-evict guard key t 0 later _ early (omega arith) (Held-insert_new key t seen fresh))))
