-- ===== src/Requests/Service/Sound.antt =====
-- However the calls of the service interleave, its store stays good:
-- packages/sdk/src/requests/application/query-service.ts.
use anchr.Prelude.{
  ℕ, zero, suc, List, [], ◌∷◌, Option, none, some, All, All-append, Option-cases, inl, inr,
}
use mathlib.Core.Path.{subst}
use anchr.Protocol.Schema.{UrlParser}
use anchr.Requests.Store.{clear, empty}
use anchr.Requests.Store.Laws.{empty-Keyed}
use anchr.Requests.Aggregate.Consistent.{create-Consistent}
use anchr.Requests.Finalize.{ServiceDeps, verify_and_finalize}
use anchr.Requests.Lifecycle.{do_create_query}
use anchr.Requests.Service.{
  Task, submission, selection, escrow_submission, System, Event, creates, submits, cancels, expires,
  purges, clears, offers, selects, begins, records, completes, escrow_submits, resumes, rejects,
  pick, drop_at, resume, step, run,
}
use anchr.Requests.Service.Keeps.{Good, do_expire_queries-Good, do_purge_expired-Good}
use anchr.Requests.Service.Calls.{
  TaskGood, keep_created-Good, start_submit-Good, finish_submit-Good, do_cancel_query-Good,
  do_record_offer-Good, do_begin_work-Good, do_record_result-Good, do_complete_verification-Good,
  start_selection-Good, commit_selection-Good, start_escrow_submit-Good, store_verdict-Good,
}

pub record Sound (s : System) : Type 0 where
  pub good : Good s.store
  pub waiting : All TaskGood s.tasks

abbrev OnSome : (Task → Type 0) → Option Task → Type 0
OnSome P none = Unit
OnSome P (some t) = P t

pick-All : (n : ℕ) (ts : List Task) → All TaskGood ts → OnSome TaskGood (pick n ts)
unfolding pick
pick-All n [] h = tt
pick-All zero (x ∷ ts) h = h.0
pick-All (suc n) (x ∷ ts) h = pick-All n ts h.1

drop_at-All : (n : ℕ) (ts : List Task) → All TaskGood ts → All TaskGood (drop_at n ts)
unfolding drop_at
drop_at-All n [] h = tt
drop_at-All zero (t ∷ ts) h = h.1
drop_at-All (suc n) (t ∷ ts) h = (h.0, drop_at-All n ts h.1)

resume-Good :
    (deps : ServiceDeps) (later : ℕ) (t : Task) (s : System)
    → TaskGood t
    → Good s.store
    → Good (resume deps later t s).store
unfolding resume verify_and_finalize
resume-Good deps later (submission id q r meta asked keys) s t g =
    finish_submit-Good s.store id q r _ meta keys later t g
resume-Good deps later (selection id answer) s t g = commit_selection-Good s.store id answer t g
resume-Good deps later (escrow_submission id q v r asked keys) s (c, under, own) g =
    store_verdict-Good s.store id v _ c under own g

-- A call that goes on starts no other.
resume_tasks :
    (deps : ServiceDeps) (later : ℕ) (t : Task) (s : System)
    → All TaskGood s.tasks
    → All TaskGood (resume deps later t s).tasks
unfolding resume
resume_tasks deps later (submission id q r meta asked keys) s h = h
resume_tasks deps later (selection id answer) s h = h
resume_tasks deps later (escrow_submission id q v r asked keys) s h = h

empty-Good : Good (clear [])
unfolding clear
empty-Good = record { keyed = unfold empty in empty-Keyed; consistent = tt }

module _ (parse : UrlParser) (deps : ServiceDeps) where
  -- Every call, and every call that goes on, keeps the service sound: each query stands in the store
  -- once, under its own id, and is consistent, and so is what the waiting calls hold.
  pub step-Sound : (s : System) (e : Event) → Sound s → Sound (step parse deps s e)
  unfolding step do_create_query clear
  step-Sound s (creates input options services) h = record {
    good = keep_created-Good s.store _ (create-Consistent parse input _ services) h.good;
    waiting = h.waiting;
  }
  step-Sound s (submits id result meta asked keys now) h =
      let (g, ts) = start_submit-Good deps s.store id result meta asked keys now h.good in
      record { good = g; waiting = All-append TaskGood s.tasks _ h.waiting ts }
  step-Sound s (cancels id) h = record {
    good = do_cancel_query-Good s.store id h.good;
    waiting = h.waiting;
  }
  step-Sound s (expires now) h = record {
    good = do_expire_queries-Good s.store now h.good;
    waiting = h.waiting;
  }
  step-Sound s purges h = record {
    good = do_purge_expired-Good s.store h.good;
    waiting = h.waiting;
  }
  step-Sound s clears h = record { good = empty-Good; waiting = h.waiting }
  step-Sound s (offers id offer) h = record {
    good = do_record_offer-Good s.store id h.good offer;
    waiting = h.waiting;
  }
  step-Sound s (selects id provider token) h =
      let (g, ts) = start_selection-Good deps s.store id provider token h.good in
      record { good = g; waiting = All-append TaskGood s.tasks _ h.waiting ts }
  step-Sound s (begins id) h = record {
    good = do_begin_work-Good s.store id h.good;
    waiting = h.waiting;
  }
  step-Sound s (records id result provider keys now) h = record {
    good = do_record_result-Good s.store id h.good deps result provider keys now;
    waiting = h.waiting;
  }
  step-Sound s (completes id passed asked) h = record {
    good = do_complete_verification-Good s.store id h.good passed asked;
    waiting = h.waiting;
  }
  step-Sound s (escrow_submits id result provider asked keys now) h =
      let (g, ts) =
        start_escrow_submit-Good deps s.store id result provider asked keys now h.good in
      record { good = g; waiting = All-append TaskGood s.tasks _ h.waiting ts }
  step-Sound s (resumes n later) h = elim (Option-cases (pick n s.tasks)) [
    | inl missing ↦ rw (missing, step) h
    | inr (t, found) ↦
        let left = record s { tasks = drop_at n s.tasks } in
        let picked = subst (OnSome TaskGood) found (pick-All n s.tasks h.waiting) in
        rw (found, step)
          (record {
            good = resume-Good deps later t left picked h.good;
            waiting = resume_tasks deps later t left (drop_at-All n s.tasks h.waiting);
          })
  ]
  step-Sound s (rejects n) h = record { good = h.good; waiting = drop_at-All n s.tasks h.waiting }

  -- So the service is sound after any history that starts with an empty store, however its calls
  -- interleave.
  pub run-Sound : (s : System) (es : List Event) → Sound s → Sound (run parse deps s es)
  unfolding run
  run-Sound s [] h = h
  run-Sound s (e ∷ es) h = run-Sound (step parse deps s e) es (step-Sound s e h)
