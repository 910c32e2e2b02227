-- ===== src/Tests/Policies.antt =====
-- packages/go/actionruntime: a session is made from the backend's tools, and a job's result is taken.
use nova2sonici_osapp.Common.{
  ◌≡◌, ◌≢◌, ◌≤◌, refl, ◌⊎◌, Bool, true, false, List, [], ◌∷◌, length, all,
}
use nova2sonici_osapp.Common.Assoc.{Map, lookup, insert}
use nova2sonici_osapp.Common.Fallible.{Fallible, ok}
use nova2sonici_osapp.Common.Text.{Text, codes, eq_text, len}
use nova2sonici_osapp.Mcp.Types.{Tool, Result, eq_policy, compile, failure}
use nova2sonici_osapp.Actions.Types.{Profile, Job}
use nova2sonici_osapp.Actions.Discovery.{new, model_name, model_tool_name, permitted, add_tool}
use nova2sonici_osapp.Actions.Dialogue.{execute}
use nova2sonici_osapp.Actions.Offered.{IsNew, new-IsNew}
use nova2sonici_osapp.Actions.Replies.{execute_bounded}
use nova2sonici_osapp.Tests.Toy.{toy, offering, cancel_tool, cancel_profile}

abbrev discovered : Fallible (List Tool)
discovered = ok (cancel_tool ∷ [])

abbrev allowed : List Text
allowed = codes "agenda.cancel" ∷ []

abbrev profiles : Map Profile
profiles = (codes "cancel", cancel_profile) ∷ []

new_offers : new toy discovered allowed (codes "n") profiles ≡ ok offering
unfolding new permitted model_name add_tool model_tool_name lookup insert eq_text compile eq_policy
new_offers = refl

new-IsNew_example : IsNew toy allowed profiles offering × (offering.specs ≢ [])
new-IsNew_example = new-IsNew toy discovered allowed (codes "n") profiles offering new_offers

abbrev answer : Result
answer = record {
  content = record { kind = codes "text"; text = codes "ok" } ∷ [];
  is_error = false;
}

abbrev backend : Text → Text → Text → Bool → Fallible Result
backend name args key confirmed = ok answer

abbrev job : Job
job = record {
  id = codes "c1";
  name = codes "agenda.cancel";
  key = codes "k";
  turn_id = codes "t1";
  args = codes "7";
  confirmed = true;
}

execute_bounded_example :
    let r = execute toy backend job in
    ((code : Text) × (r ≡ failure toy.json code))
    ⊎ ((backend job.name job.args job.key job.confirmed ≡ ok r)
        × (1 ≤ length r.content)
        × (length r.content ≤ 16)
        × (len (toy.json.marshal_result r) ≤ 65536)
        × (all (λ c. eq_text c.kind (codes "text")) r.content ≡ true))
execute_bounded_example = execute_bounded toy backend job
