-- ===== src/Tests/Gateways.antt =====
-- Runs of the approval gateway and of the stream parser, and the theorems on them at concrete inputs.
use ollama_proxy_server.Prelude.{
  none, inl, inr, ◌≡◌, refl, true, false, List, [], ◌∷◌, String, json_decode_error, Result, ok, err,
  In, any, insert, lookup, remove, str_eq, if◌then◌else◌,
}
use ollama_proxy_server.Json.{Json, null}
use ollama_proxy_server.Services.Approvals.{
  ApprovalGateway, Event, require, resolve, wake, time_out, step, run, require_approval,
  is_high_stakes, create_approval_request, resolve_approval, wait_for_approval, end_wait,
}
use ollama_proxy_server.Services.Approvals.Machine.{finished, status_of, replay}
use ollama_proxy_server.Services.Approvals.Refines.{approvals_refine}
use ollama_proxy_server.Services.Approvals.Approved.{approval_needs_resolve}
use ollama_proxy_server.Services.Parser.{parse_stream}
use ollama_proxy_server.Services.Parser.Ends.{parse_stream_division}

abbrev no_approvals : ApprovalGateway
no_approvals = record { pending_approvals = []; returned = [] }

-- The administrator approves the first request; the second one runs out of time.
abbrev later_events : List Event
later_events =
    require "b" "model_pull_gt_20gb"
    ∷ resolve "a" true
    ∷ time_out "b"
    ∷ resolve "b" true
    ∷ wake "a"
    ∷ []

abbrev approval_events : List Event
approval_events = require "a" "switch_production_router" ∷ later_events

approvals_refine_example :
    status_of "a" (run approval_events no_approvals)
    ≡ replay "a" approval_events (status_of "a" no_approvals)
approvals_refine_example = approvals_refine "a" approval_events no_approvals

first_approved : status_of "a" (run approval_events no_approvals) ≡ finished true
unfolding run step require_approval is_high_stakes any create_approval_request resolve_approval
    wait_for_approval end_wait insert lookup remove
first_approved = refl

approval_needs_resolve_example :
    ((require_approval "a" "switch_production_router" no_approvals).0 ≡ none)
    × In (resolve "a" true) later_events
approval_needs_resolve_example =
    approval_needs_resolve "a" "switch_production_router" later_events no_approvals (inr (inl refl))
      first_approved

second_timed_out : status_of "b" (run approval_events no_approvals) ≡ finished false
unfolding run step require_approval is_high_stakes any create_approval_request resolve_approval
    wait_for_approval end_wait insert lookup remove
second_timed_out = refl

abbrev only_null : String → Result Json
only_null s = if str_eq s "null" then ok null else err (json_decode_error "")

parse_stream_division_example :
    parse_stream only_null "" ("nul" ∷ "l\nx\nnu" ∷ []) []
    ≡ parse_stream only_null "" ("null\nx" ∷ "\n" ∷ "nu" ∷ []) []
parse_stream_division_example =
    parse_stream_division only_null ("nul" ∷ "l\nx\nnu" ∷ []) ("null\nx" ∷ "\n" ∷ "nu" ∷ []) [] refl
