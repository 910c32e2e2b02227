-- ===== src/Actions/Run/Frame.antt =====
-- What the operations of a session leave alone.
use nova2sonici_osapp.Common.{◌≡◌, ◌⊎◌, none, arith}
use nova2sonici_osapp.Actions.Types.{Session, Host, Clock}
use nova2sonici_osapp.Actions.Planning.{
  Call, admit, check_intent, ask, check_approval, check_attempted, check_cache, check_limits,
  check_arguments, check_dates, plan, refuse,
}
use nova2sonici_osapp.Actions.Dialogue.{observe_user, answer, confirm, interrupt, complete, hear}
use nova2sonici_osapp.Actions.Run.{Op, plans, observes, confirms, interrupts, completes, step}

-- The tools, the namespace and the offered specifications are fixed.
pub record Frame (s s' : Session) : Type 0 where
  pub tools : s'.tools ≡ s.tools
  pub specs : s'.specs ≡ s.specs
  pub namespace : s'.namespace ≡ s.namespace

pub plan-Frame : (h : Host) (t : Clock) (c : Call) (s : Session) → Frame s (plan h t c s).0
unfolding plan check_dates check_arguments check_limits check_cache check_attempted check_approval
    ask check_intent admit refuse
plan-Frame h t c s = ground arith

pub step-Frame : (h : Host) (o : Op) (s : Session) → Frame s (step h o s)
unfolding step observe_user answer hear confirm interrupt complete
step-Frame h (plans t c) s = plan-Frame h t c s
step-Frame h (observes now turn text) s = ground arith
step-Frame h (confirms now id approved) s = ground arith
step-Frame h interrupts s = ground arith
step-Frame h (completes j r) s = ground arith

-- A call that is answered at once starts nothing.
pub plan-attempted :
    (h : Host) (t : Clock) (c : Call) (s : Session)
    → ((plan h t c s).2 ≡ none) ⊎ ((plan h t c s).0.attempted ≡ s.attempted)
unfolding plan check_dates check_arguments check_limits check_cache check_attempted check_approval
    ask check_intent admit refuse
plan-attempted h t c s = ground arith
