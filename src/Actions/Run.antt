-- ===== src/Actions/Run.antt =====
-- packages/go/actionruntime: a session's life as a sequence of operations, in the order in which its
-- one owner makes them.
pub mod Frame
pub mod AtMostOnce
pub mod Approval
pub mod Limits
use nova2sonici_osapp.Common.{
  ℕ, zero, suc, ◌+◌, Bool, true, false, ◌&&◌, Option, none, some, List, [], ◌∷◌, if◌then◌else◌,
  is_some, not,
}
use nova2sonici_osapp.Common.Assoc.{lookup}
use nova2sonici_osapp.Common.Text.{Text, eq_text}
use nova2sonici_osapp.Mcp.Types.{Result}
use nova2sonici_osapp.Actions.Types.{Session, Job, Host, Clock}
use nova2sonici_osapp.Actions.Planning.{Plan, Call, mutates, plan}
use nova2sonici_osapp.Actions.Dialogue.{observe_user, confirm, interrupt, complete}

pub data Op : Type 0 where
  plans : Clock → Call → Op
  observes : ℕ → Text → Text → Op
  confirms : ℕ → Text → Bool → Op
  interrupts : Op
  completes : Job → Result → Op

unfoldable pub step : Host → Op → Session → Session
step h (plans t c) s = (plan h t c s).0
step h (observes now turn text) s = (observe_user h now turn text s).0
step h (confirms now id approved) s = (confirm now id approved s).0
step h interrupts s = interrupt s
step h (completes j r) s = complete j r s

unfoldable pub run : Host → List Op → Session → Session
run h [] s = s
run h (o ∷ os) s = run h os (step h o s)

-- The operation hands out a job of a tool that is not read_only, under the key `k`.
unfoldable pub releases_mutation : Host → Text → Op → Session → Bool
releases_mutation h k (plans t c) s = elim (lookup c.name s.tools) [
  | none ↦ false
  | some b ↦ mutates b && not (is_some (plan h t c s).2) && eq_text (plan h t c s).1.key k
]
releases_mutation h k (observes _ _ _) s = false
releases_mutation h k (confirms _ _ _) s = false
releases_mutation h k interrupts s = false
releases_mutation h k (completes _ _) s = false

-- How often a run does that.
unfoldable pub mutations : Host → Text → List Op → Session → ℕ
mutations h k [] s = 0
mutations h k (o ∷ os) s =
    let rest = mutations h k os (step h o s) in if releases_mutation h k o s then suc rest else rest
