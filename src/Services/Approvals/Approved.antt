-- ===== src/Services/Approvals/Approved.antt =====
-- A high-stakes operation is not approved before `resolve_approval` approves it.
use ollama_proxy_server.Prelude.{
  ◌≡◌, refl, ◌∙◌, ap, sym, ◌⊎◌, inl, inr, Bool, true, false, none, any, arith, List, [], ◌∷◌,
  String, str_eq, eq_iff, In, if◌then◌else◌,
}
use ollama_proxy_server.Services.Approvals.{
  require_approval, ApprovalGateway, is_high_stakes, Event, require, resolve, wake, time_out, run,
}
use ollama_proxy_server.Services.Approvals.Machine.{
  Status, unknown, waiting, resolved, finished, answer, close, deliver, next, replay, status_of,
}
use ollama_proxy_server.Services.Approvals.Refines.{approvals_refine}

if_cases : (b : Bool) {x y z : Status} → (if b then x else y) ≡ z → ((b ≡ true) × (x ≡ z)) ⊎ (y ≡ z)
if_cases true h = inl (refl, h)
if_cases false h = inr h

close_approved : (status : Status) → close status ≡ finished true → status ≡ finished true
unfolding close
close_approved unknown h = cc
close_approved waiting h = cc
close_approved (resolved approved) h = cc
close_approved (finished approved) h = h

close-resolved : (status : Status) → close status ≡ resolved true → status ≡ resolved true
unfolding close
close-resolved unknown h = cc
close-resolved waiting h = cc
close-resolved (resolved approved) h = cc
close-resolved (finished approved) h = cc

deliver_approved :
    (status : Status)
    → deliver status ≡ finished true
    → (status ≡ finished true) ⊎ (status ≡ resolved true)
unfolding deliver
deliver_approved unknown h = cc
deliver_approved waiting h = cc
deliver_approved (resolved approved) h = inr cc
deliver_approved (finished approved) h = inl h

deliver-resolved : (status : Status) → deliver status ≡ resolved true → status ≡ resolved true
unfolding deliver
deliver-resolved unknown h = cc
deliver-resolved waiting h = cc
deliver-resolved (resolved approved) h = cc
deliver-resolved (finished approved) h = cc

answer_approved :
    (approved : Bool) (status : Status)
    → answer approved status ≡ finished true
    → status ≡ finished true
unfolding answer
answer_approved approved unknown h = cc
answer_approved approved waiting h = cc
answer_approved approved (resolved old) h = cc
answer_approved approved (finished old) h = h

answer-resolved :
    (approved : Bool) (status : Status) → answer approved status ≡ resolved true → approved ≡ true
unfolding answer
answer-resolved approved unknown h = cc
answer-resolved approved waiting h = cc
answer-resolved approved (resolved old) h = cc
answer-resolved approved (finished old) h = cc

next_approved :
    (approval_id : String) (event : Event) (status : Status)
    → next approval_id event status ≡ finished true
    → (status ≡ finished true) ⊎ (status ≡ resolved true)
unfolding next
next_approved approval_id (require id operation) status h =
    elim (if_cases (str_eq id approval_id) h) [
      | inl p ↦ elim (if_cases (is_high_stakes operation) p.1) [ inl q ↦ cc | inr same ↦ inl same ]
      | inr same ↦ inl same
    ]
next_approved approval_id (resolve id approved) status h =
    elim (if_cases (str_eq id approval_id) h) [
      | inl p ↦ inl (answer_approved approved status p.1)
      | inr same ↦ inl same
    ]
next_approved approval_id (wake id) status h = elim (if_cases (str_eq id approval_id) h) [
  | inl p ↦ deliver_approved status p.1
  | inr same ↦ inl same
]
next_approved approval_id (time_out id) status h = elim (if_cases (str_eq id approval_id) h) [
  | inl p ↦ inl (close_approved status p.1)
  | inr same ↦ inl same
]

next-resolved :
    (approval_id : String) (event : Event) (status : Status)
    → next approval_id event status ≡ resolved true
    → (status ≡ resolved true) ⊎ (resolve approval_id true ≡ event)
unfolding next
next-resolved approval_id (require id operation) status h =
    elim (if_cases (str_eq id approval_id) h) [
      | inl p ↦ elim (if_cases (is_high_stakes operation) p.1) [ inl q ↦ cc | inr same ↦ inl same ]
      | inr same ↦ inl same
    ]
next-resolved approval_id (resolve id approved) status h =
    elim (if_cases (str_eq id approval_id) h) [
      | inl p ↦ inr (
          ap (λ k. resolve k true) (sym ((eq_iff id approval_id).0 p.0))
          ∙ ap (resolve id) (sym (answer-resolved approved status p.1)))
      | inr same ↦ inl same
    ]
next-resolved approval_id (wake id) status h = elim (if_cases (str_eq id approval_id) h) [
  | inl p ↦ inl (deliver-resolved status p.1)
  | inr same ↦ inl same
]
next-resolved approval_id (time_out id) status h = elim (if_cases (str_eq id approval_id) h) [
  | inl p ↦ inl (close-resolved status p.1)
  | inr same ↦ inl same
]

replay_approved :
    (approval_id : String) (events : List Event) (status : Status)
    → replay approval_id events status ≡ finished true
    → ((status ≡ finished true) ⊎ (status ≡ resolved true)) ⊎ In (resolve approval_id true) events
unfolding replay
replay_approved approval_id [] status h = inl (inl h)
replay_approved approval_id (event ∷ events) status h =
    elim (replay_approved approval_id events (next approval_id event status) h) [
      | inl (inl done_now) ↦ inl (next_approved approval_id event status done_now)
      | inl (inr resolved_now) ↦ elim (next-resolved approval_id event status resolved_now) [
        | inl before ↦ inl (inr before)
        | inr this ↦ inr (inl this)
      ]
      | inr later ↦ inr (inr later)
    ]

-- The operations that need an approval
abbrev pub needs_approval : List String
needs_approval =
    "model_pull_gt_20gb" ∷ "switch_production_router" ∷ "delete_model_from_all_servers"
    ∷ "change_retry_timeout_in_production" ∷ []

any-In : (name : String) (names : List String) → In name names → any (str_eq name) names ≡ true
unfolding any
any-In name [] there = absurd there
any-In name (x ∷ names) (inl same) = rw ((eq_iff name x).1 same) refl
any-In name (x ∷ names) (inr there) = rw (any-In name names there) (ground arith)

needed_high : (name : String) → In name needs_approval → is_high_stakes name ≡ true
unfolding is_high_stakes
needed_high name there = any-In name needs_approval there

waits :
    (approval_id operation : String) (status : Status)
    → is_high_stakes operation ≡ true
    → next approval_id (require approval_id operation) status ≡ waiting
unfolding next
waits approval_id operation status high = rw ((eq_iff approval_id approval_id).1 refl, high) refl

-- `require_approval` for an operation that needs an approval does not return at once. Whatever happens in
-- the gateway after it, its wait returns True only if `resolve_approval` has been called for its id with
-- True after it.
pub approval_needs_resolve :
    (approval_id operation : String) (events : List Event) (gateway : ApprovalGateway)
    → In operation needs_approval
    → status_of approval_id (run (require approval_id operation ∷ events) gateway) ≡ finished true
    → ((require_approval approval_id operation gateway).0 ≡ none)
      × In (resolve approval_id true) events
unfolding require_approval replay
approval_needs_resolve approval_id operation events gateway needed approved =
    let high = needed_high operation needed in
    (
      rw high refl,
      elim (replay_approved approval_id events waiting (
          ap (replay approval_id events)
            (sym (waits approval_id operation (status_of approval_id gateway) high))
          ∙ sym (approvals_refine approval_id (require approval_id operation ∷ events) gateway)
          ∙ approved)) [
            | inl (inl impossible) ↦ cc
            | inl (inr impossible) ↦ cc
            | inr later ↦ later
          ],
    )
