-- ===== src/Proofs/ReplayGuard.antt =====
-- The set of presentations that were seen, `createReplayGuard` of packages/sdk/src/proofs/replay-guard.ts.
-- The map goes from a key to the time it was written. `now() - retentionMs` may be negative, so the
-- comparison with it is written as a sum.
pub mod Memory
pub mod Bounded
use anchr.Prelude.{
  ℕ, ◌+◌, ◌*◌, String, Bool, true, false, List, [], ◌∷◌, Option, none, some, ltb, if◌then◌else◌,
  Eq-string, length,
}
use anchr.Prelude.Dict.{Dict, insert, has as dict_has, size as dict_size}
use mathlib.Core.Option.{get_or}

pub record ReplayGuardOptions : Type 0 where
  pub retention_ms : Option ℕ
  pub max_entries : Option ℕ

abbrev pub default_retention_ms : ℕ
default_retention_ms = 7 * 24 * 60 * 60 * 1000

abbrev pub default_max_entries : ℕ
default_max_entries = 100000

abbrev pub Seen : Type 0
Seen = Dict String ℕ

-- The two settings of a guard.
pub record ReplayGuard : Type 0 where
  pub retention : ℕ
  pub max : ℕ

unfoldable pub create_replay_guard : ReplayGuardOptions → ReplayGuard
create_replay_guard options = record {
  retention = get_or options.retention_ms default_retention_ms;
  max = get_or options.max_entries default_max_entries;
}

-- The first loop of `evict`: from the front, up to the first key that is young enough.
unfoldable pub evict_stale : ℕ → ℕ → Seen → Seen
evict_stale retention now [] = []
evict_stale retention now ((key, inserted_at) ∷ rest) =
    let others = evict_stale retention now rest in
    if ltb (inserted_at + retention) now then others else (key, inserted_at) ∷ rest

-- The second loop: the front goes while there are too many.
unfoldable pub evict_excess : ℕ → Seen → Seen
evict_excess max [] = []
evict_excess max (entry ∷ rest) =
    let others = evict_excess max rest in if ltb max (length rest + 1) then others else entry ∷ rest

unfoldable pub evict : ReplayGuard → ℕ → Seen → Seen
unfolding evict_stale evict_excess
evict guard now seen = evict_excess guard.max (evict_stale guard.retention now seen)

module _ (guard : ReplayGuard) where
  unfoldable pub has : ℕ → String → Seen → Seen × Bool
  unfolding evict
  has now key seen = let left = evict guard now seen in (left, dict_has key left)

  -- The clock is read at the write, and again by `evict`.
  unfoldable pub add : ℕ → ℕ → String → Seen → Seen
  unfolding evict insert
  add now later key seen = evict guard later (insert key now seen)

unfoldable pub clear : Seen → Seen
clear seen = []

unfoldable pub size : Seen → ℕ
size seen = dict_size seen

-- A call of a guard, with the times that it reads.
pub data Call : Type 0 where
  looks : ℕ → String → Call
  adds : ℕ → ℕ → String → Call
  clears : Call

unfoldable pub after_call : ReplayGuard → Call → Seen → Seen
unfolding has add clear
after_call guard (looks now key) seen = (has guard now key seen).0
after_call guard (adds now later key) seen = add guard now later key seen
after_call guard clears seen = clear seen

unfoldable pub after_calls : ReplayGuard → List Call → Seen → Seen
after_calls guard [] seen = seen
after_calls guard (c ∷ cs) seen = after_calls guard cs (after_call guard c seen)
