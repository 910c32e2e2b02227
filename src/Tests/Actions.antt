-- ===== src/Tests/Actions.antt =====
-- packages/go/actionruntime: a cancellation that the user confirms by voice.
use nova2sonici_osapp.Common.{
  ◌≡◌, ◌≤◌, refl, true, false, none, some, List, [], ◌∷◌, arith, inl, ◌⊎◌,
}
use nova2sonici_osapp.Common.Assoc.{lookup, insert, has}
use nova2sonici_osapp.Common.Text.{codes, eq_text, contains_any}
use nova2sonici_osapp.Voice.Id.{valid_id}
use nova2sonici_osapp.Mcp.Types.{eq_policy, validate, Result}
use nova2sonici_osapp.Actions.Types.{Binding, Pending, Job}
use nova2sonici_osapp.Actions.Normalize.{normalize}
use nova2sonici_osapp.Actions.Discovery.{tool_key}
use nova2sonici_osapp.Actions.Dialogue.{observe_user, complete, policy_of, confirmation_phrase}
use nova2sonici_osapp.Actions.Planning.{
  plan, check_dates, check_arguments, check_limits, check_cache, check_attempted, check_approval,
  check_intent, admit, ask, is_approved, must_ask_anew, conflicts, refuse,
}
use nova2sonici_osapp.Actions.Run.{Op, plans, observes, step, run, mutations}
use nova2sonici_osapp.Actions.Run.AtMostOnce.{mutations-le-one}
use nova2sonici_osapp.Actions.Run.Approval.{Warrant, plan-Warrant}
use nova2sonici_osapp.Actions.Run.Limits.{IsBounded, run-IsBounded, run-seen}
use nova2sonici_osapp.Actions.Replies.{Passes, plan-complete, plan-pending_kept}
use nova2sonici_osapp.Actions.Release.Stages.{counted, keyed_job}
use nova2sonici_osapp.Tests.Toy.{toy, offering, at, asks, asks_again, cancel_tool, cancel_profile}

abbrev confirmed_run : List Op
confirmed_run = plans (at 1) asks ∷ observes 2 (codes "t2") (codes "confirmo") ∷ []

abbrev offered : Binding
offered = record {
  tool = cancel_tool;
  schema = codes "{}";
  policy = cancel_profile.policy;
  original = codes "cancel";
  profile = cancel_profile;
}

-- All that a run of the session computes with.
opened : Unit {0}
unfolding run step plan valid_id lookup insert eq_text check_dates check_arguments check_limits
    check_cache check_attempted check_approval ask must_ask_anew conflicts observe_user normalize
    validate has eq_policy tool_key contains_any is_approved check_intent admit confirmation_phrase
    complete policy_of refuse
opened = tt

confirmed_offers :
    lookup (codes "agenda_cancel") (run toy confirmed_run offering).tools ≡ some offered
unfolding opened
confirmed_offers = refl

confirmed_runs : (plan toy (at 3) asks_again (run toy confirmed_run offering)).2 ≡ none
unfolding opened
confirmed_runs = refl

plan-Warrant_example :
    (p : Pending) × Warrant toy
      (at 3)
      confirmed_run
      offering
      offered
      asks_again
      (plan toy (at 3) asks_again (run toy confirmed_run offering))
      p
plan-Warrant_example =
    plan-Warrant toy (at 3) asks_again confirmed_run offering offered refl confirmed_offers refl
      confirmed_runs

mutations-le-one_example :
    mutations toy
      (codes "n")
      (plans (at 3) asks_again ∷ plans (at 4) asks_again ∷ [])
      (run toy confirmed_run offering)
    ≤ 1
mutations-le-one_example =
    mutations-le-one toy (codes "n") (plans (at 3) asks_again ∷ plans (at 4) asks_again ∷ [])
      (run toy confirmed_run offering)

run-IsBounded_example : IsBounded (run toy confirmed_run offering)
run-IsBounded_example =
    run-IsBounded toy confirmed_run offering
      (record { calls_capped = omega arith; seen_counted = omega arith })

seen_once :
    lookup (codes "c1") (run toy (plans (at 1) asks ∷ []) offering).seen
    ≡ some (tool_key toy (codes "n") (codes "agenda.cancel") (codes "7"))
unfolding opened
seen_once = refl

run-seen_example :
    lookup (codes "c1") (run toy confirmed_run (run toy (plans (at 1) asks ∷ []) offering)).seen
    ≡ some (tool_key toy (codes "n") (codes "agenda.cancel") (codes "7"))
run-seen_example =
    run-seen toy confirmed_run (run toy (plans (at 1) asks ∷ []) offering) (codes "c1") _ seen_once

offering-Passes : Passes toy offering asks offered
unfolding opened
offering-Passes = record {
  id_valid = refl;
  offered = refl;
  dates_valid = inl refl;
  arguments_valid = refl;
  id_own = refl;
  room = omega arith;
}

abbrev done : Result
done = record { content = record { kind = codes "text"; text = codes "ok" } ∷ []; is_error = false }

abbrev done_job : Job
done_job = record {
  id = codes "c0";
  name = codes "agenda.cancel";
  key = tool_key toy (codes "n") (codes "agenda.cancel") (codes "7");
  turn_id = codes "t0";
  args = codes "7";
  confirmed = true;
}

plan-complete_example : plan toy (at 3) asks (complete done_job done offering) ≡ (
  counted (record offering { cache = insert done_job.key done [] }) asks done_job.key,
  keyed_job offered asks done_job.key,
  some done,
)
unfolding opened
plan-complete_example =
    plan-complete toy (at 3) offering asks offered done_job done offering-Passes refl refl refl

abbrev waiting : Pending
waiting = record {
  operation_id = codes "c1";
  name = codes "agenda.cancel";
  args = codes "7";
  turn_id = codes "t1";
  expires = 60000000001;
  approved = false;
}

plan-pending_kept_example :
    ((plan toy (at 3) asks_again (record offering { pending = some waiting })).2 ≡ none)
    ⊎ ((plan toy (at 3) asks_again (record offering { pending = some waiting })).0.pending
        ≡ some waiting)
unfolding opened
plan-pending_kept_example =
    plan-pending_kept toy (at 3) (record offering { pending = some waiting }) asks_again offered
      waiting refl refl refl refl (omega arith)
