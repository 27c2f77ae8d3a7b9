-- ===== src/Billing/Endpoint.antt =====
-- The webhook endpoint: `process_webhook` of app/services/billing_service.py, with
-- `verify_signature` of app/services/billing.py.
use third_party_vendor_risk.Base.{
  ℕ, String, Bool, ◌&&◌, ◌||◌, not, Option, none, some, List, ◌==◌, string_eq, if◌then◌else◌,
}
use third_party_vendor_risk.Json.{Json, get, truthy, as_dict}
use third_party_vendor_risk.Billing.Rows.{Outcome, Store}
use third_party_vendor_risk.Billing.Webhooks.{apply_event}

-- One request to the webhook's endpoint.
pub record Request : Type 0 where
  pub payload : String
  pub signature : Option String
  pub now : ℕ

pub data Answer : Type 0 where
  signature_error payload_error server_error : Answer
  done : Outcome → Answer

-- `verified` is Stripe's own check of a signature, and `loads` is `json.loads`.
module _ (show : Json → String) (int_of digits : String → Option ℕ)
    (verified : String → Option String → String → Bool) (loads : String → Option Json)
    (prices : List (String × String)) (secret : String) where
  -- `process_webhook`. A request that raises has changed nothing.
  unfoldable pub process_webhook : Store → Request → Answer × Store
  process_webhook db request =
      if secret == "" || not (verified request.payload request.signature secret)
      then (signature_error, db)
      else elim (loads request.payload) [
        | none ↦ (payload_error, db)
        | some body ↦ elim (as_dict body) [
          | none ↦ (payload_error, db)
          | some event ↦
              if truthy (get "id" event) && truthy (get "type" event)
              then elim (apply_event show int_of digits prices request.now db event) [
                | none ↦ (server_error, db)
                | some (outcome, after) ↦ (done outcome, after)
              ]
              else (payload_error, db)
        ]
      ]
