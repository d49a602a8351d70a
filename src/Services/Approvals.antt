-- ===== src/Services/Approvals.antt =====
-- app/services/approval_gateway.py: `ApprovalGateway`. Its coroutines interleave at their awaits, so a
-- run is a sequence of events: a request, a call of `resolve_approval`, the wake-up of a waiter whose
-- event is set, and the end of the time that a waiter waits. The context of a request is left out;
-- the id of a request, a new UUID, comes with the event, and `returned` holds what its
-- `require_approval` has returned.
pub mod Machine
pub mod Refines
pub mod Approved
use ollama_proxy_server.Prelude.{
  ◌≡◌, Bool, true, false, Option, none, some, List, [], ◌∷◌, String, str_eq, any, Dict, lookup,
  insert, remove, if◌then◌else◌,
}

pub record Approval : Type 0 where
  pub operation : String
  pub is_set : Bool
  pub approved : Bool

pub record ApprovalGateway : Type 0 where
  pub pending_approvals : Dict Approval
  pub returned : Dict Bool

abbrev high_stakes_operations : List String
high_stakes_operations =
    "model_pull_gt_20gb" ∷ "switch_production_router" ∷ "delete_model_from_all_servers"
    ∷ "change_retry_timeout_in_production" ∷ []

unfoldable pub is_high_stakes : String → Bool
is_high_stakes operation = any (str_eq operation) high_stakes_operations

unfoldable pub create_approval_request : String → String → ApprovalGateway → ApprovalGateway
create_approval_request approval_id operation gateway = record gateway {
  pending_approvals =
      insert approval_id (record { operation = operation; is_set = false; approved = false })
        gateway.pending_approvals;
}

-- `require_approval` up to its wait: what it returns at once, if it does
unfoldable pub require_approval : String → String → ApprovalGateway → Option Bool × ApprovalGateway
require_approval approval_id operation gateway =
    let asked = create_approval_request approval_id operation gateway in
    let high_stakes = is_high_stakes operation in
    (if high_stakes then none else some true, if high_stakes then asked else gateway)

set_event : String → Bool → Option Approval → ApprovalGateway → ApprovalGateway
set_event approval_id approved none gateway = gateway
set_event approval_id approved (some req) gateway = record gateway {
  pending_approvals =
      insert approval_id (record req { is_set = true; approved = approved })
        gateway.pending_approvals;
}

unfoldable pub resolve_approval : String → Bool → ApprovalGateway → ApprovalGateway
unfolding set_event
resolve_approval approval_id approved gateway =
    set_event approval_id approved (lookup approval_id gateway.pending_approvals) gateway

-- the `finally` of `_wait_for_approval`, behind which it returns
unfoldable pub end_wait : String → Bool → ApprovalGateway → ApprovalGateway
end_wait approval_id approved gateway = record {
  pending_approvals = remove approval_id gateway.pending_approvals;
  returned = insert approval_id approved gateway.returned;
}

wait_on : String → Bool → Option Approval → ApprovalGateway → ApprovalGateway
unfolding end_wait
wait_on approval_id timed_out none gateway = gateway
wait_on approval_id timed_out (some req) gateway =
    if timed_out
    then end_wait approval_id false gateway
    else if req.is_set
    then end_wait approval_id req.approved gateway
    else gateway

-- `_wait_for_approval` where its wait ends: by the event, which then is set, or by the time
unfoldable pub wait_for_approval : String → Bool → ApprovalGateway → ApprovalGateway
unfolding wait_on
wait_for_approval approval_id timed_out gateway =
    wait_on approval_id timed_out (lookup approval_id gateway.pending_approvals) gateway

pub data Event : Type 0 where
  require : String → String → Event
  resolve : String → Bool → Event
  wake : String → Event
  time_out : String → Event

unfoldable pub step : Event → ApprovalGateway → ApprovalGateway
step (require approval_id operation) gateway = (require_approval approval_id operation gateway).1
step (resolve approval_id approved) gateway = resolve_approval approval_id approved gateway
step (wake approval_id) gateway = wait_for_approval approval_id false gateway
step (time_out approval_id) gateway = wait_for_approval approval_id true gateway

unfoldable pub run : List Event → ApprovalGateway → ApprovalGateway
run [] gateway = gateway
run (event ∷ events) gateway = run events (step event gateway)
