-- ===== src/Services/Costs.antt =====
-- app/core/cost_tracker.py: `TokenCostTracker`. The arithmetic of Python's floats is a Floats, of which
-- nothing is assumed: amounts are what its operations give, in the order in which the code applies them.
-- The metric that is written to the log is left out.
use ollama_proxy_server.Prelude.{
  ℕ, ◌≡◌, refl, ap, ◌∙◌, inl, inr, Bool, true, false, Option, none, some, List, [], ◌∷◌, String,
  str_eq, eq_iff, Dict, lookup, insert, lookup-insert, if◌then◌else◌, Bool-cases,
}

pub record Floats (F : Type 0) : Type 0 where
  pub literal : String → F
  pub of_int : ℕ → F
  pub add : F → F → F
  pub subtract : F → F → F
  pub multiply : F → F → F
  pub divide : F → F → F
  pub at_least : F → F → Bool

pub record TierCosts (F : Type 0) : Type 0 where
  pub input : F
  pub output : F

module _ {F : Type 0} (floats : Floats F) where
  at : String → String → TierCosts F
  at input output = record { input = floats.literal input; output = floats.literal output }

  -- `COST_TABLE.get(model_tier, COST_TABLE["balanced"])`
  unfoldable pub tier_costs : String → TierCosts F
  unfolding at
  tier_costs model_tier =
      if str_eq "nano" model_tier
      then at "0.0001" "0.0002"
      else if str_eq "fast" model_tier
      then at "0.0005" "0.0015"
      else if str_eq "deep" model_tier
      then at "0.005" "0.015"
      else if str_eq "reasoning" model_tier
      then at "0.008" "0.024"
      else at "0.002" "0.006"

  unfoldable pub cost_of : String → ℕ → ℕ → F
  cost_of model_tier input_tokens output_tokens =
      let costs = tier_costs model_tier in
      floats.divide
        (floats.add (floats.multiply (floats.of_int input_tokens) costs.input)
          (floats.multiply (floats.of_int output_tokens) costs.output))
        (floats.of_int 1000)

  or_default : F → Option F → F
  or_default default_budget none = default_budget
  or_default default_budget (some budget) = budget

  module _ (default_budget : F) where
    -- `_get_remaining_budget`: what remains; a user without an entry gets one with the default
    unfoldable pub remaining_budget : String → Dict F → F
    unfolding or_default
    remaining_budget user_id user_budgets = or_default default_budget (lookup user_id user_budgets)

    -- `_deduct_budget`
    unfoldable pub deduct_budget : String → F → Dict F → Dict F
    deduct_budget user_id cost user_budgets =
        insert user_id (floats.subtract (remaining_budget user_id user_budgets) cost) user_budgets

    unfoldable pub track_request : String → ℕ → ℕ → String → Dict F → F × Dict F
    track_request model_tier input_tokens output_tokens user_id user_budgets =
        let cost = cost_of model_tier input_tokens output_tokens in
        (cost, deduct_budget user_id cost user_budgets)

    -- `remaining >= estimated_cost`
    unfoldable pub check_budget : String → ℕ → Dict F → Bool × Dict F
    check_budget user_id estimated_tokens user_budgets =
        let remaining = remaining_budget user_id user_budgets in
        let estimated_cost =
          floats.divide (floats.multiply (floats.of_int estimated_tokens) (floats.literal "0.01"))
            (floats.of_int 1000) in
        (floats.at_least remaining estimated_cost, insert user_id remaining user_budgets)

    remaining_budget-deduct_budget :
        (user_id other : String) (cost : F) (user_budgets : Dict F)
        → remaining_budget other (deduct_budget user_id cost user_budgets) ≡ (
            if str_eq user_id other
            then floats.subtract (remaining_budget user_id user_budgets) cost
            else remaining_budget other user_budgets)
    unfolding deduct_budget remaining_budget
    remaining_budget-deduct_budget user_id other cost user_budgets =
        rw (lookup-insert user_id other _ user_budgets)
          (elim (Bool-cases (str_eq user_id other)) [ inl e ↦ rw e refl | inr e ↦ rw e refl ])

-- A request as `track_request` takes it
pub record Request : Type 0 where
  pub model_tier : String
  pub input_tokens : ℕ
  pub output_tokens : ℕ
  pub user_id : String

-- The prices of a thousand tokens, read and written, of each tier; another tier has those of `balanced`.
abbrev pub price_of : String → String × String
price_of model_tier =
    if str_eq "nano" model_tier
    then ("0.0001", "0.0002")
    else if str_eq "fast" model_tier
    then ("0.0005", "0.0015")
    else if str_eq "deep" model_tier
    then ("0.005", "0.015")
    else if str_eq "reasoning" model_tier
    then ("0.008", "0.024")
    else ("0.002", "0.006")

module _ {F : Type 0} (floats : Floats F) where
  tier_costs-price_of :
      (model_tier : String)
      → tier_costs floats model_tier ≡ at floats (price_of model_tier).0 (price_of model_tier).1
  unfolding tier_costs
  tier_costs-price_of model_tier =
      go (str_eq "nano" model_tier) (str_eq "fast" model_tier) (str_eq "deep" model_tier)
        (str_eq "reasoning" model_tier)
    where
      go :
          (nano fast deep reasoning : Bool)
          → (let price : String × String =
                if nano
                then ("0.0001", "0.0002")
                else if fast
                then ("0.0005", "0.0015")
                else if deep
                then ("0.005", "0.015")
                else if reasoning
                then ("0.008", "0.024")
                else ("0.002", "0.006") in
              (if nano
                then at floats "0.0001" "0.0002"
                else if fast
                then at floats "0.0005" "0.0015"
                else if deep
                then at floats "0.005" "0.015"
                else if reasoning
                then at floats "0.008" "0.024"
                else at floats "0.002" "0.006")
              ≡ at floats price.0 price.1)
      go true fast deep reasoning = refl
      go false true deep reasoning = refl
      go false false true reasoning = refl
      go false false false true = refl
      go false false false false = refl

  -- The price of a request: that of the tokens read and that of those written, for each thousand
  abbrev pub charge : Request → F
  charge r =
      floats.divide
        (floats.add
          (floats.multiply (floats.of_int r.input_tokens)
            (floats.literal (price_of r.model_tier).0))
          (floats.multiply (floats.of_int r.output_tokens)
            (floats.literal (price_of r.model_tier).1)))
        (floats.of_int 1000)

  -- What is left of a budget behind a user's own requests, taken off one after the other
  abbrev pub left_of : String → List Request → F → F
  left_of user_id [] budget = budget
  left_of user_id (r ∷ requests) budget =
      left_of user_id requests
        (if str_eq r.user_id user_id then floats.subtract budget (charge r) else budget)

  cost_of-charge :
      (r : Request) → cost_of floats r.model_tier r.input_tokens r.output_tokens ≡ charge r
  unfolding cost_of at
  cost_of-charge r =
      ap
        (λ (costs : TierCosts F).
          floats.divide
            (floats.add (floats.multiply (floats.of_int r.input_tokens) costs.input)
              (floats.multiply (floats.of_int r.output_tokens) costs.output))
            (floats.of_int 1000))
        (tier_costs-price_of r.model_tier)

  module _ (default_budget : F) where
    abbrev pub track_all : List Request → Dict F → Dict F
    track_all [] user_budgets = user_budgets
    track_all (r ∷ requests) user_budgets =
        track_all requests
          (track_request floats default_budget r.model_tier r.input_tokens r.output_tokens r.user_id
            user_budgets).1

    -- After any sequence of requests by any users, each user's budget is the one before, or the
    -- default, from which the charges of that user's own requests have been taken off one after the
    -- other, and those of no other user.
    pub track_all-left_of :
        (user_id : String) (requests : List Request) (user_budgets : Dict F)
        → remaining_budget floats default_budget user_id (track_all requests user_budgets)
          ≡ left_of user_id requests (remaining_budget floats default_budget user_id user_budgets)
    unfolding track_request
    track_all-left_of user_id [] user_budgets = refl
    track_all-left_of user_id (r ∷ requests) user_budgets =
        let cost = cost_of floats r.model_tier r.input_tokens r.output_tokens in
        track_all-left_of user_id requests
          (deduct_budget floats default_budget r.user_id cost user_budgets)
        ∙ ap (left_of user_id requests) (
            remaining_budget-deduct_budget floats default_budget r.user_id user_id cost user_budgets
            ∙ elim (Bool-cases (str_eq r.user_id user_id)) [
              | inl own ↦ rw own (
                  ap
                    (λ (u : String).
                      floats.subtract (remaining_budget floats default_budget u user_budgets) cost)
                    ((eq_iff r.user_id user_id).0 own)
                  ∙ ap
                      (floats.subtract
                        (remaining_budget floats default_budget user_id user_budgets))
                      (cost_of-charge r))
              | inr other ↦ rw other refl
            ])
