-- ===== src/Services/Approvals/Machine.antt =====
-- What the gateway promises for one request, as a machine with five statuses, and the view of the
-- gateway's tables as a status of that machine.
use ollama_proxy_server.Prelude.{
  Bool, false, Option, none, some, List, [], ◌∷◌, String, str_eq, lookup, if◌then◌else◌,
}
use ollama_proxy_server.Services.Approvals.{
  Approval, ApprovalGateway, is_high_stakes, Event, require, resolve, wake, time_out,
}

pub data Status : Type 0 where
  unknown : Status
  waiting : Status
  resolved : Bool → Status
  finished : Bool → Status

unfoldable pub close : Status → Status
close waiting = finished false
close (resolved approved) = finished false
close status = status

unfoldable pub answer : Bool → Status → Status
answer approved waiting = resolved approved
answer approved (resolved old) = resolved approved
answer approved status = status

unfoldable pub deliver : Status → Status
deliver (resolved approved) = finished approved
deliver status = status

-- The specification: what an event means for the request with an id
unfoldable pub next : String → Event → Status → Status
next approval_id (require id operation) status =
    if str_eq id approval_id then if is_high_stakes operation then waiting else status else status
next approval_id (resolve id approved) status =
    if str_eq id approval_id then answer approved status else status
next approval_id (wake id) status = if str_eq id approval_id then deliver status else status
next approval_id (time_out id) status = if str_eq id approval_id then close status else status

unfoldable pub replay : String → List Event → Status → Status
replay approval_id [] status = status
replay approval_id (event ∷ events) status =
    replay approval_id events (next approval_id event status)

-- The abstract view of the gateway's tables
abbrev pub of_tables : Option Approval → Option Bool → Status
of_tables (some req) returned = if req.is_set then resolved req.approved else waiting
of_tables none (some approved) = finished approved
of_tables none none = unknown

abbrev pub status_of : String → ApprovalGateway → Status
status_of approval_id gateway =
    of_tables (lookup approval_id gateway.pending_approvals) (lookup approval_id gateway.returned)
