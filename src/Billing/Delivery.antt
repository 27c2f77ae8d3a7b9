-- ===== src/Billing/Delivery.antt =====
-- Any sequence of requests to the webhook endpoint of app/services/billing_service.py: redelivered,
-- out of order, unsigned or unreadable.
use third_party_vendor_risk.Base.{
  ℕ, ◌≤◌, ◌≡◌, ◌≢◌, String, Bool, true, false, ◌||◌, ◌&&◌, not, Option, some, List, [], ◌∷◌, ◌==◌,
  arith, nat_eq, string_eq, Option-cases, Bool-cases, ◌⊎◌, inl, inr, str_eq_refl,
}
use third_party_vendor_risk.Json.{Json, Fields, get, truthy, as_dict}
use third_party_vendor_risk.Billing.Rows.{Outcome, duplicate, Store}
use third_party_vendor_risk.Billing.Webhooks.{event_key, apply_event}
use third_party_vendor_risk.Billing.Endpoint.{Request, process_webhook, Answer, done}
use third_party_vendor_risk.Billing.Plans.{IsInForce, Change-IsInForce}
use third_party_vendor_risk.Billing.Events.{
  event_clock, is_logged, Handles, Change-events, Change-clock, apply_event-cases,
}

-- What every request keeps.
record Keeps (db db' : Store) : Type 0 where
  in_force : IsInForce db → IsInForce db'
  clocks : (a : ℕ) → event_clock a db ≤ event_clock a db'
  log : (key : String) → is_logged key db ≡ true → is_logged key db' ≡ true

Keeps-refl : (db : Store) → Keeps db db
Keeps-refl db = record { in_force = λ h. h; clocks = λ a. omega arith; log = λ key h. h }

Keeps-trans : {a b c : Store} → Keeps a b → Keeps b c → Keeps a c
Keeps-trans h k = record {
  in_force = λ i. k.in_force (h.in_force i);
  clocks = λ a. omega (arith, h.clocks a, k.clocks a);
  log = λ key l. k.log key (h.log key l);
}

event_clock-rows :
    (a : ℕ) (db db' : Store) → db'.rows ≡ db.rows → event_clock a db' ≡ event_clock a db
unfolding event_clock
event_clock-rows a db db' e = rw e

Handles-Keeps : {key : String} {db db' : Store} → Handles key db db' → Keeps db db'
Handles-Keeps {key} {db} {db'} h = record {
  in_force = λ i. rw h.after (Change-IsInForce db i h.change);
  clocks = λ a. omega (
    arith,
    Change-clock a h.change,
    event_clock-rows a h.handled.2 db' (ground (arith, h.after)),
  );
  log = λ k l. rw h.after (ground (arith, Change-events h.change));
}

module _ (show : Json → String) (int_of digits : String → Option ℕ)
    (verified : String → Option String → String → Bool) (loads : String → Option Json)
    (prices : List (String × String)) (secret : String) where
  apply_event-Keeps :
      (now : ℕ) (db db' : Store) (event : Fields) (o : Outcome)
      → apply_event show int_of digits prices now db event ≡ some (o, db')
      → Keeps db db'
  apply_event-Keeps now db db' event o e =
      elim (apply_event-cases show int_of digits prices now db db' event o e) [
        | inl (old, skipped, same) ↦ rw same (Keeps-refl db)
        | inr h ↦ Handles-Keeps h
      ]

  abbrev respond : Store → Request → Answer × Store
  respond = process_webhook show int_of digits verified loads prices secret

  -- A request that has an outcome is signed, holds an event, and did what the event does; any
  -- other changes nothing.
  record Processed (db : Store) (r : Request) (o : Outcome) (db' : Store) : Type 0 where
    body : Json
    event : Fields
    signed : (secret == "" || not (verified r.payload r.signature secret)) ≡ false
    loaded : loads r.payload ≡ some body
    dict : as_dict body ≡ some event
    named : (truthy (get "id" event) && truthy (get "type" event)) ≡ true
    processed : apply_event show int_of digits prices r.now db event ≡ some (o, db')

  respond-cases :
      (db : Store) (r : Request)
      → ((respond db r).1 ≡ db) × ((o : Outcome) → (respond db r).0 ≢ done o)
        ⊎ (o : Outcome) × Processed db r o (respond db r).1 × ((respond db r).0 ≡ done o)
  unfolding process_webhook
  respond-cases db r =
      elim (Bool-cases (secret == "" || not (verified r.payload r.signature secret))) [
        | inl unsigned ↦ inl (ground arith, λ o e. ground arith)
        | inr signed ↦ elim (Option-cases (loads r.payload)) [
          | inl unread ↦ inl (ground arith, λ o e. ground arith)
          | inr (body, loaded) ↦ elim (Option-cases (as_dict body)) [
            | inl no_dict ↦ inl (ground arith, λ o e. ground arith)
            | inr (event, dict) ↦
                elim (Bool-cases (truthy (get "id" event) && truthy (get "type" event))) [
                  | inr unnamed ↦ inl (ground arith, λ o e. ground arith)
                  | inl named ↦
                      elim (Option-cases (apply_event show int_of digits prices r.now db event)) [
                        | inl raised ↦ inl (ground arith, λ o e. ground arith)
                        | inr ((o, after), did) ↦ inr (
                          o,
                          record {
                            body = body;
                            event = event;
                            signed = signed;
                            loaded = loaded;
                            dict = dict;
                            named = named;
                            processed = ground arith;
                          },
                          ground arith,
                        )
                      ]
                ]
          ]
        ]
      ]

  respond-Keeps : (db : Store) (r : Request) → Keeps db (respond db r).1
  respond-Keeps db r = elim (respond-cases db r) [
    | inl (same, _) ↦ rw same (Keeps-refl db)
    | inr (o, p, _) ↦ apply_event-Keeps r.now db (respond db r).1 p.event o p.processed
  ]

  respond_again :
      (db : Store) (r : Request) (body : Json) (event : Fields)
      → loads r.payload ≡ some body
      → as_dict body ≡ some event
      → (truthy (get "id" event) && truthy (get "type" event)) ≡ true
      → apply_event show int_of digits prices r.now db event ≡ some (duplicate, db)
      → verified r.payload r.signature secret ≡ true
      → (secret == "") ≡ false
      → respond db r ≡ (done duplicate, db)
  unfolding process_webhook
  respond_again db r body event loaded dict named applies signed keyed = ground arith

  -- The store after a sequence of requests.
  unfoldable pub receive : Store → List Request → Store
  receive db [] = db
  receive db (r ∷ rs) = receive (respond db r).1 rs

  receive-Keeps : (rs : List Request) (db : Store) → Keeps db (receive db rs)
  unfolding receive
  receive-Keeps [] db = Keeps-refl db
  receive-Keeps (r ∷ rs) db = Keeps-trans (respond-Keeps db r) (receive-Keeps rs (respond db r).1)

  -- Whatever requests arrive, an organization whose billing row holds a subscription status keeps
  -- the plan that the row's plan and status entitle it to.
  pub receive-IsInForce :
      (db : Store) (rs : List Request) → IsInForce db → IsInForce (receive db rs)
  receive-IsInForce db rs inv = (receive-Keeps rs db).in_force inv

  -- Whatever requests arrive, in whatever order, the time of the last subscription event applied to
  -- the row of an organization never goes back.
  pub receive-clock :
      (db : Store) (rs : List Request) (a : ℕ) → event_clock a db ≤ event_clock a (receive db rs)
  receive-clock db rs a = (receive-Keeps rs db).clocks a

  apply_event-logged :
      (now : ℕ) (db db' : Store) (event : Fields) (o : Outcome)
      → apply_event show int_of digits prices now db event ≡ some (o, db')
      → is_logged (event_key show int_of digits event) db' ≡ true
  apply_event-logged now db db' event o e =
      elim (apply_event-cases show int_of digits prices now db db' event o e) [
        | inl (old, skipped, same) ↦ rw same old
        | inr h ↦ ground (arith, h.after, h.keyed, str_eq_refl (event_key show int_of digits event))
      ]

  apply_event-duplicate :
      (now : ℕ) (db : Store) (event : Fields)
      → is_logged (event_key show int_of digits event) db ≡ true
      → apply_event show int_of digits prices now db event ≡ some (duplicate, db)
  unfolding apply_event
  apply_event-duplicate now db event old = rw old

  -- A delivery that had an outcome has no second effect: when its payload is delivered again, at
  -- any later time and after any other requests, with a signature that is verified, the answer is
  -- `duplicate` and the store stays as it is.
  pub redelivery-duplicate :
      (db : Store) (r again : Request) (rs : List Request) (o : Outcome)
      → (respond db r).0 ≡ done o
      → again.payload ≡ r.payload
      → verified again.payload again.signature secret ≡ true
      → let later = receive (respond db r).1 rs in respond later again ≡ (done duplicate, later)
  redelivery-duplicate db r again rs o answered same signed = elim (respond-cases db r) [
    | inl (_, unanswered) ↦ absurd (unanswered o answered)
    | inr (o', p, _) ↦
        let logged =
          (receive-Keeps rs (respond db r).1).log _
            (apply_event-logged r.now db (respond db r).1 p.event o' p.processed) in
        respond_again (receive (respond db r).1 rs) again p.body p.event (rw same p.loaded) p.dict
          p.named (apply_event-duplicate again.now (receive (respond db r).1 rs) p.event logged)
          signed (ground (arith, p.signed))
  ]
