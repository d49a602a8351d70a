-- ===== src/Services/Approvals/Refines.antt =====
-- The gateway implements the machine of Machine for each id, whatever it does for the others.
use ollama_proxy_server.Prelude.{
  ◌≡◌, refl, ◌∙◌, ap, sym, inl, inr, Bool, true, false, Option, none, some, List, [], ◌∷◌, String,
  str_eq, eq_iff, lookup, insert, lookup-insert, lookup-remove, arith, Bool-cases, if◌then◌else◌,
}
use ollama_proxy_server.Services.Approvals.{
  set_event, wait_on, Approval, ApprovalGateway, is_high_stakes, create_approval_request,
  require_approval, resolve_approval, end_wait, wait_for_approval, Event, require, resolve, wake,
  time_out, step, run,
}
use ollama_proxy_server.Services.Approvals.Machine.{
  Status, waiting, resolved, finished, close, answer, deliver, next, replay, of_tables, status_of,
}

module _ (approval_id id : String) (gateway : ApprovalGateway) where
  -- The tables behind an insertion, and behind a removal
  of_insert :
      (req : Approval)
      → of_tables
          (lookup approval_id (insert id req gateway.pending_approvals))
          (lookup approval_id gateway.returned)
        ≡ (if str_eq id approval_id
            then of_tables (some req) (lookup approval_id gateway.returned)
            else status_of approval_id gateway)
  of_insert req = elim (Bool-cases (str_eq id approval_id)) [
    | inl same ↦ rw (lookup-insert id approval_id req gateway.pending_approvals, same) refl
    | inr other ↦ rw (lookup-insert id approval_id req gateway.pending_approvals, other) refl
  ]

  of_end_wait :
      (approved : Bool)
      → status_of approval_id (end_wait id approved gateway)
        ≡ (if str_eq id approval_id then finished approved else status_of approval_id gateway)
  unfolding end_wait
  of_end_wait approved = elim (Bool-cases (str_eq id approval_id)) [
    | inl same ↦
        rw
          (
            lookup-remove id approval_id gateway.pending_approvals,
            lookup-insert id approval_id approved gateway.returned,
            same,
          )
          refl
    | inr other ↦
        rw
          (
            lookup-remove id approval_id gateway.pending_approvals,
            lookup-insert id approval_id approved gateway.returned,
            other,
          )
          refl
  ]

  same_lookup :
      (found : Option Approval)
      → lookup id gateway.pending_approvals ≡ found
      → str_eq id approval_id ≡ true
      → status_of approval_id gateway ≡ of_tables found (lookup approval_id gateway.returned)
  same_lookup found there same =
      ap (λ pending. of_tables pending (lookup approval_id gateway.returned))
        (ap (λ k. lookup k gateway.pending_approvals) (sym ((eq_iff id approval_id).0 same))
          ∙ there)

  step_require :
      (operation : String)
      → status_of approval_id (step (require id operation) gateway)
        ≡ next approval_id (require id operation) (status_of approval_id gateway)
  unfolding step next require_approval create_approval_request
  step_require operation = elim (Bool-cases (is_high_stakes operation)) [
    | inl high ↦ rw high (of_insert _)
    | inr low ↦ rw low (ground arith)
  ]

  same_or :
      (found : Option Approval)
      → lookup id gateway.pending_approvals ≡ found
      → status_of approval_id gateway ≡ (
          if str_eq id approval_id
          then of_tables found (lookup approval_id gateway.returned)
          else status_of approval_id gateway)
  same_or found there = elim (Bool-cases (str_eq id approval_id)) [
    | inl same ↦ rw same (same_lookup found there same)
    | inr other ↦ rw other refl
  ]

  -- An operation that looks at the request with an id, for what it finds
  module _ (act : Option Approval → ApprovalGateway → ApprovalGateway)
      (change : Status → Status) where
    of_found :
        ((found : Option Approval)
          → lookup id gateway.pending_approvals ≡ found
          → status_of approval_id (act found gateway) ≡ (
              if str_eq id approval_id
              then change (of_tables found (lookup approval_id gateway.returned))
              else status_of approval_id gateway))
        → status_of approval_id (act (lookup id gateway.pending_approvals) gateway) ≡ (
            if str_eq id approval_id
            then change (status_of approval_id gateway)
            else status_of approval_id gateway)
    of_found acts = elim (Bool-cases (str_eq id approval_id)) [
      | inl same ↦
          acts _ refl ∙ rw (same, same_lookup (lookup id gateway.pending_approvals) refl same) refl
      | inr other ↦ acts _ refl ∙ rw other refl
    ]

  -- Where there is no such request, the status stays.
  of_none :
      (change : Status → Status)
      → ((returned : Option Bool) → change (of_tables none returned) ≡ of_tables none returned)
      → lookup id gateway.pending_approvals ≡ none
      → status_of approval_id gateway ≡ (
          if str_eq id approval_id
          then change (of_tables none (lookup approval_id gateway.returned))
          else status_of approval_id gateway)
  of_none change stays there = elim (Bool-cases (str_eq id approval_id)) [
    | inl same ↦ rw same (same_lookup none there same ∙ sym (stays _))
    | inr other ↦ rw other refl
  ]

  act_set :
      (approved : Bool) (found : Option Approval)
      → lookup id gateway.pending_approvals ≡ found
      → status_of approval_id (set_event id approved found gateway) ≡ (
          if str_eq id approval_id
          then answer approved (of_tables found (lookup approval_id gateway.returned))
          else status_of approval_id gateway)
  unfolding set_event answer
  act_set approved none there = of_none (answer approved) stays there
    where
      stays :
          (returned : Option Bool)
          → answer approved (of_tables none returned) ≡ of_tables none returned
      stays none = refl
      stays (some b) = refl
  act_set approved (some req) there =
      of_insert _
      ∙ ap (λ status. if str_eq id approval_id then status else status_of approval_id gateway)
          (pending req.is_set)
    where
      pending :
          (is_set : Bool)
          → resolved approved ≡ answer approved (if is_set then resolved req.approved else waiting)
      pending true = refl
      pending false = refl

  act_wait :
      (timed_out : Bool) (found : Option Approval)
      → lookup id gateway.pending_approvals ≡ found
      → status_of approval_id (wait_on id timed_out found gateway) ≡ (
          if str_eq id approval_id
          then (if timed_out then close else deliver)
              (of_tables found (lookup approval_id gateway.returned))
          else status_of approval_id gateway)
  unfolding wait_on close deliver
  act_wait timed_out none there =
      of_none (if timed_out then close else deliver) (stays timed_out) there
    where
      stays :
          (b : Bool) (returned : Option Bool)
          → (if b then close else deliver) (of_tables none returned) ≡ of_tables none returned
      stays true none = refl
      stays true (some approved) = refl
      stays false none = refl
      stays false (some approved) = refl
  act_wait true (some req) there =
      of_end_wait false
      ∙ ap (λ status. if str_eq id approval_id then status else status_of approval_id gateway)
          (closed req.is_set)
    where
      closed :
          (is_set : Bool)
          → finished false ≡ close (if is_set then resolved req.approved else waiting)
      closed true = refl
      closed false = refl
  act_wait false (some req) there = elim (Bool-cases req.is_set) [
    | inl is_set ↦
        ap (λ b. status_of approval_id (if b then end_wait id req.approved gateway else gateway))
          is_set
        ∙ of_end_wait req.approved
        ∙ ap (delivered req) (sym is_set)
    | inr open_wait ↦
        ap (λ b. status_of approval_id (if b then end_wait id req.approved gateway else gateway))
          open_wait
        ∙ same_or (some req) there
        ∙ ap (λ status. if str_eq id approval_id then status else status_of approval_id gateway)
            (ap (λ b. if b then resolved req.approved else waiting) open_wait)
        ∙ ap (delivered req) (sym open_wait)
  ]
    where
      delivered : Approval → Bool → Status
      delivered req is_set =
          if str_eq id approval_id
          then deliver (if is_set then resolved req.approved else waiting)
          else status_of approval_id gateway

step_refines :
    (approval_id : String) (event : Event) (gateway : ApprovalGateway)
    → status_of approval_id (step event gateway)
      ≡ next approval_id event (status_of approval_id gateway)
unfolding step next resolve_approval wait_for_approval
step_refines approval_id (require id operation) gateway =
    step_require approval_id id gateway operation
step_refines approval_id (resolve id approved) gateway =
    of_found approval_id id gateway (set_event id approved) (answer approved)
      (act_set approval_id id gateway approved)
step_refines approval_id (wake id) gateway =
    of_found approval_id id gateway (wait_on id false) deliver
      (act_wait approval_id id gateway false)
step_refines approval_id (time_out id) gateway =
    of_found approval_id id gateway (wait_on id true) close (act_wait approval_id id gateway true)

-- Whatever requests, resolutions, wake-ups and ends of waits there are, and in whatever order, the
-- gateway's tables give for each id the status that the machine for that id alone reaches.
pub approvals_refine :
    (approval_id : String) (events : List Event) (gateway : ApprovalGateway)
    → status_of approval_id (run events gateway)
      ≡ replay approval_id events (status_of approval_id gateway)
unfolding run replay
approvals_refine approval_id [] gateway = refl
approvals_refine approval_id (event ∷ events) gateway =
    approvals_refine approval_id events (step event gateway)
    ∙ ap (replay approval_id events) (step_refines approval_id event gateway)
