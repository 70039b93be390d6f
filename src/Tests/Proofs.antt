-- ===== src/Tests/Proofs.antt =====
-- The replay guard and the integrity store at concrete inputs.
use anchr.Prelude.{ℕ, String, none, ◌≤◌, true, List, [], ◌∷◌, ◌≡◌, refl, arith, Eq-string}
use anchr.Prelude.Dict.{lookup}
use anchr.Proofs.ReplayGuard.{
  ReplayGuard, Call, looks, adds, has, add, size, after_calls, after_call,
}
use anchr.Proofs.IntegrityStore.{IntegrityMetadata, get_metadata, purge_stale}
use anchr.Proofs.IntegrityStore.Purge.{
  Call as StoreCall, stored, purged, Keyed, after_history, Purged, get-purge_stale,
}
use anchr.Proofs.ReplayGuard.Memory.{remembered}
use anchr.Proofs.ReplayGuard.Bounded.{size-after_calls}

abbrev small : ReplayGuard
small = record { retention = 100; max = 2 }

abbrev day : List Call
day = adds 10 11 "b" ∷ looks 20 "a" ∷ []

remembered_example : (has small 90 "a" (after_calls small day (add small 5 6 "a" []))).1 ≡ true
unfolding lookup
remembered_example =
    remembered small "a" 5 6 90 day [] refl (omega arith) (omega arith)
      ((omega arith, omega arith), (omega arith, tt)) (omega arith)

size-after_calls_example : size (after_calls small day []) ≤ 2
size-after_calls_example = size-after_calls small day

known_b : (has small 20 "b" (after_calls small day [])).1 ≡ true
unfolding has after_calls after_call lookup
known_b = refl

abbrev photo : String → ℕ → IntegrityMetadata String String String
photo id captured_at = record {
  attachment_id = id;
  request_id = "request";
  captured_at = captured_at;
  exif = "exif";
  c2pa = "c2pa";
  proofmode = none;
}

abbrev uploads : List (StoreCall String String String)
uploads = stored (photo "b.jpg" 90) ∷ purged 50 100 ∷ stored (photo "a.jpg" 10) ∷ []

get-purge_stale_example :
    Keyed (after_history uploads)
    × Purged 100 50
        (get_metadata "a.jpg" (after_history uploads))
        (get_metadata "a.jpg" (purge_stale 100 50 (after_history uploads)).0)
get-purge_stale_example = get-purge_stale uploads 100 50 "a.jpg"
