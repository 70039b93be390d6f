-- ===== src/Requests/Service.antt =====
-- The query service as a system of calls that interleave: `createQueryService` of
-- packages/sdk/src/requests/application/query-service.ts. A call runs without a break up to its
-- `await`, and later from there, on the store as it is then.
pub mod Keeps
pub mod Calls
pub mod Sound
pub mod Races
use anchr.Prelude.{
  ℕ, zero, suc, String, Bool, true, false, List, [], ◌∷◌, ◌++◌, Option, none, some, if◌then◌else◌,
}
use anchr.Protocol.Schema.{UrlParser}
use anchr.Requests.Types.{
  Query, QueryInput, QueryResult, SubmissionMeta, OfferInfo, BlossomKeyMap, DomainServices,
}
use anchr.Requests.Store.{QueryStore, get, clear}
use anchr.Requests.Finalize.{ServiceDeps, CreateQueryOptions, verify_and_finalize}
use anchr.Requests.Lifecycle.{
  Submission, do_create_query, start_submit, finish_submit, do_cancel_query, do_expire_queries,
  do_purge_expired,
}
use anchr.Requests.Lifecycle
use anchr.Requests.EscrowFlow.{
  Selection, do_record_offer, decide_selection, selection_waits, commit_selection, do_begin_work,
  do_record_result, do_complete_verification,
}
use anchr.Requests.EscrowFlow.Submit.{EscrowSubmission, start_escrow_submit, deliver, store_verdict}
use anchr.Requests.EscrowFlow
use anchr.Payments.Preimage.{PreimageStore}

-- A call that waits, with what it needs when it goes on.
pub data Task : Type 0 where
  submission :
      String → Query → QueryResult → SubmissionMeta → Option String → Option BlossomKeyMap → Task
  selection : String → Selection → Task
  escrow_submission :
      String → Query → Query → QueryResult → Option String → Option BlossomKeyMap → Task

pub record System : Type 0 where
  pub store : QueryStore
  pub preimages : Option PreimageStore
  pub tasks : List Task

-- A call of the service, a waiting call that goes on, or one that ends without a further write, as what
-- it waits for is rejected: an oracle's verdict or a check of the escrow provider.
pub data Event : Type 0 where
  creates : QueryInput → CreateQueryOptions → DomainServices → Event
  submits : String → QueryResult → SubmissionMeta → Option String → Option BlossomKeyMap → ℕ → Event
  cancels : String → Event
  expires : ℕ → Event
  purges : Event
  clears : Event
  offers : String → OfferInfo → Event
  selects : String → String → Option String → Event
  begins : String → Event
  records : String → QueryResult → String → Option BlossomKeyMap → ℕ → Event
  completes : String → Bool → Option String → Event
  escrow_submits : String → QueryResult → String → Option String → Option BlossomKeyMap → ℕ → Event
  resumes : ℕ → ℕ → Event
  rejects : ℕ → Event

-- The waiting call at a place, if there is one, and the others.
unfoldable pub pick : ℕ → List Task → Option Task
pick n [] = none
pick zero (t ∷ ts) = some t
pick (suc n) (t ∷ ts) = pick n ts

unfoldable pub drop_at : ℕ → List Task → List Task
drop_at n [] = []
drop_at zero (t ∷ ts) = ts
drop_at (suc n) (t ∷ ts) = t ∷ drop_at n ts

-- What a submission adds to the waiting calls.
abbrev pub submit_task :
    String → SubmissionMeta → Option String → Option BlossomKeyMap → Submission → List Task
submit_task id meta asked keys (Submission.settled outcome) = []
submit_task id meta asked keys (Submission.waits q r) = submission id q r meta asked keys ∷ []

abbrev pub escrow_task :
    String → Option String → Option BlossomKeyMap → EscrowSubmission → List Task
escrow_task id asked keys (EscrowSubmission.settled outcome) = []
escrow_task id asked keys (EscrowSubmission.waits q v r) =
    escrow_submission id q v r asked keys ∷ []

-- A selection of a query that was read: it waits for the checks of its token, or writes at once.
abbrev pub start_selection :
    ServiceDeps
    → QueryStore
    → String
    → String
    → Option String
    → Option Query
    → QueryStore × List Task
start_selection deps store id provider token none = (store, [])
start_selection deps store id provider token (some q) =
    let answer = decide_selection deps q provider token in
    if selection_waits deps q provider token
    then (store, selection id answer ∷ [])
    else ((commit_selection store id answer).0, [])

-- A waiting call goes on at the time `later`.
unfoldable pub resume : ServiceDeps → ℕ → Task → System → System
resume deps later (submission id q r meta asked keys) s =
    let final = verify_and_finalize q r deps keys asked in
    record s { store = (finish_submit s.store id q r final meta keys later).0 }
resume deps later (selection id answer) s = record s {
  store = (commit_selection s.store id answer).0;
}
resume deps later (escrow_submission id q v r asked keys) s =
    let final = verify_and_finalize v r deps keys asked in
    record s {
      store = store_verdict s.store id final;
      preimages = (deliver deps s.preimages q v r final keys).0;
    }

module _ (parse : UrlParser) (deps : ServiceDeps) where
  unfoldable pub step : System → Event → System
  step s (creates input options services) = record s {
    store = (do_create_query parse s.store input options services).0;
  }
  step s (submits id result meta asked keys now) =
      let (store', answer) = start_submit deps s.store id result now in
      record s { store = store'; tasks = s.tasks ++ submit_task id meta asked keys answer }
  step s (cancels id) = record s { store = (do_cancel_query s.store id).0 }
  step s (expires now) = record s { store = (do_expire_queries s.store now).0 }
  step s purges = record s { store = (do_purge_expired s.store).0 }
  step s clears = record s { store = clear s.store }
  step s (offers id offer) = record s { store = (do_record_offer s.store id offer).0 }
  step s (selects id provider token) =
      let (store', waiting) = start_selection deps s.store id provider token (get s.store id) in
      record s { store = store'; tasks = s.tasks ++ waiting }
  step s (begins id) = record s { store = (do_begin_work s.store id).0 }
  step s (records id result provider keys now) = record s {
    store = (do_record_result deps s.store id result provider keys now).0;
  }
  step s (completes id passed asked) = record s {
    store = (do_complete_verification s.store id passed asked).0;
  }
  step s (escrow_submits id result provider asked keys now) =
      let (store', answer) = start_escrow_submit deps s.store id result provider keys now in
      record s { store = store'; tasks = s.tasks ++ escrow_task id asked keys answer }
  step s (resumes n later) = elim (pick n s.tasks) [
    | none ↦ s
    | some t ↦ resume deps later t (record s { tasks = drop_at n s.tasks })
  ]
  step s (rejects n) = record s { tasks = drop_at n s.tasks }

  unfoldable pub run : System → List Event → System
  run s [] = s
  run s (e ∷ es) = run (step s e) es
