-- ===== src/Proofs/ReplayGuard/Bounded.antt =====
-- The size of the guard, what it can know, and what it forgets first:
-- packages/sdk/src/proofs/replay-guard.ts.
use anchr.Prelude.{
  ℕ, ◌+◌, ◌≤◌, String, Bool, true, false, List, [], ◌∷◌, none, Eq-string, ◌==◌, length, ◌≡◌, refl,
  inl, inr, arith, ◌||◌, Bool-cases,
}
use anchr.Prelude.Dict.{lookup, insert, lookup-insert, ==_refl}
use anchr.Proofs.ReplayGuard.{
  Seen, ReplayGuard, evict_stale, evict_excess, evict, has, add, clear, size, Call, looks, adds,
  clears, after_call, after_calls,
}

length-evict_excess : (max : ℕ) (seen : Seen) → length (evict_excess max seen) ≤ max
unfolding evict_excess
length-evict_excess max [] = omega arith
length-evict_excess max (p ∷ rest) = ground (arith, length-evict_excess max rest)

length-after_calls :
    (guard : ReplayGuard) (cs : List Call) (seen : Seen)
    → length seen ≤ guard.max
    → length (after_calls guard cs seen) ≤ guard.max
unfolding after_calls after_call has add clear evict
length-after_calls guard [] seen h = h
length-after_calls guard (looks now key ∷ cs) seen h =
    length-after_calls guard cs _ (length-evict_excess guard.max _)
length-after_calls guard (adds now later key ∷ cs) seen h =
    length-after_calls guard cs _ (length-evict_excess guard.max _)
length-after_calls guard (clears ∷ cs) seen h = length-after_calls guard cs [] (omega arith)

-- Whatever calls are made, a guard that starts empty never remembers more keys than its cap.
pub size-after_calls :
    (guard : ReplayGuard) (cs : List Call) → size (after_calls guard cs []) ≤ guard.max
unfolding size
size-after_calls guard cs = length-after_calls guard cs [] (omega arith)

-- Some call adds the key.
abbrev pub adds_key : String → List Call → Bool
adds_key key [] = false
adds_key key (adds now later k ∷ cs) = k == key || adds_key key cs
adds_key key (_ ∷ cs) = adds_key key cs

lookup-evict_stale :
    (key : String) (retention now : ℕ) (seen : Seen)
    → lookup key seen ≡ none
    → lookup key (evict_stale retention now seen) ≡ none
unfolding evict_stale lookup
lookup-evict_stale key retention now [] h = refl
lookup-evict_stale key retention now ((k, t) ∷ rest) h =
    ground (arith, lookup-evict_stale key retention now rest)

lookup-evict_excess :
    (key : String) (max : ℕ) (seen : Seen)
    → lookup key seen ≡ none
    → lookup key (evict_excess max seen) ≡ none
unfolding evict_excess lookup
lookup-evict_excess key max [] h = refl
lookup-evict_excess key max ((k, t) ∷ rest) h = ground (arith, lookup-evict_excess key max rest)

pub lookup-evict :
    (guard : ReplayGuard) (key : String) (now : ℕ) (seen : Seen)
    → lookup key seen ≡ none
    → lookup key (evict guard now seen) ≡ none
unfolding evict
lookup-evict guard key now seen h =
    lookup-evict_excess key guard.max _ (lookup-evict_stale key guard.retention now seen h)

lookup-after_calls :
    (guard : ReplayGuard) (key : String) (cs : List Call) (seen : Seen)
    → adds_key key cs ≡ false
    → lookup key seen ≡ none
    → lookup key (after_calls guard cs seen) ≡ none
unfolding after_calls after_call has add clear lookup
lookup-after_calls guard key [] seen h unknown = unknown
lookup-after_calls guard key (looks now k ∷ cs) seen h unknown =
    lookup-after_calls guard key cs _ h (lookup-evict guard key now seen unknown)
lookup-after_calls guard key (adds now later k ∷ cs) seen h unknown =
    lookup-after_calls guard key cs _ (ground arith)
      (lookup-evict guard key later _ (ground (arith, lookup-insert k key now seen)))
lookup-after_calls guard key (clears ∷ cs) seen h unknown =
    lookup-after_calls guard key cs [] h refl

-- A key is known to a guard that started empty only if some call added it: no fresh presentation is
-- refused as a replay.
known_was_added :
    (guard : ReplayGuard) (cs : List Call) (key : String) (now : ℕ)
    → (has guard now key (after_calls guard cs [])).1 ≡ true
    → adds_key key cs ≡ true
unfolding has lookup
known_was_added guard cs key now h = elim (Bool-cases (adds_key key cs)) [
  | inl added ↦ added
  | inr never ↦
      absurd (
        ground
          (arith, lookup-evict guard key now _ (lookup-after_calls guard key cs [] never refl)))
]

length-insert_new :
    (key : String) (now : ℕ) (seen : Seen)
    → lookup key seen ≡ none
    → length (insert key now seen) ≡ length seen + 1
unfolding insert lookup
length-insert_new key now [] h = omega arith
length-insert_new key now ((k, t) ∷ rest) h = ground (arith, length-insert_new key now rest)

evict_excess_whole : (max : ℕ) (seen : Seen) → length seen ≤ max → evict_excess max seen ≡ seen
unfolding evict_excess
evict_excess_whole max [] h = refl
evict_excess_whole max (p ∷ rest) h = ground arith

readd_front :
    (guard : ReplayGuard) (key : String) (old now : ℕ) (rest : Seen)
    → length rest + 1 ≤ guard.max
    → add guard now now key ((key, old) ∷ rest) ≡ (key, now) ∷ rest
unfolding add evict insert evict_stale
readd_front guard key old now rest room =
    ground (arith, ==_refl key, evict_excess_whole guard.max ((key, now) ∷ rest))

add_full :
    (guard : ReplayGuard) (key new : String) (now : ℕ) (rest : Seen)
    → length rest + 1 ≡ guard.max
    → (key == new) ≡ false
    → lookup new rest ≡ none
    → add guard now now new ((key, now) ∷ rest) ≡ insert new now rest
unfolding add evict insert evict_stale evict_excess
add_full guard key new now rest full other absent = ground (
  arith,
  length-insert_new new now rest absent,
  evict_excess_whole guard.max (insert new now rest),
)

-- The key that is forgotten for the cap is the first that was added, even if it has just been added
-- again: at a full guard, adding its front key again and then a new one forgets the front key.
readded_forgotten :
    (guard : ReplayGuard) (key new : String) (old now : ℕ) (rest : Seen)
    → length rest + 1 ≡ guard.max
    → lookup key rest ≡ none
    → lookup new ((key, old) ∷ rest) ≡ none
    → (has guard now key
        (after_calls guard (adds now now key ∷ adds now now new ∷ []) ((key, old) ∷ rest))).1
      ≡ false
unfolding has after_calls after_call lookup
readded_forgotten guard key new old now rest full once absent =
    let other : (key == new) ≡ false = ground arith in
    let gone : lookup new rest ≡ none = ground arith in
    rw (readd_front guard key old now rest (omega arith)) (
      rw (add_full guard key new now rest full other gone) (
        ground (
          arith,
          Eq-string.beq_iff new key,
          Eq-string.beq_iff key new,
          lookup-evict guard key now (insert new now rest),
          lookup-insert new key now rest,
        )))
