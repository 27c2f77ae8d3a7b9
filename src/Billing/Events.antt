-- ===== src/Billing/Events.antt =====
-- What `apply_event` of app/services/billing_service.py does to the log, to the time of the last
-- event applied, and as a whole.
use third_party_vendor_risk.Base.{
  ℕ, suc, ◌≤◌, ◌≡◌, refl, String, Bool, true, Option, none, some, List, ◌∷◌, ◌==◌, arith, nat_eq,
  string_eq, Option-cases, Bool-cases, ◌⊎◌, inl, inr, any,
}
use third_party_vendor_risk.Tenancy.{Organization}
use third_party_vendor_risk.Json.{Json, Fields, get, dict_or_empty, to_text, take_chars}
use third_party_vendor_risk.Billing.Rows.{
  Outcome, duplicate, BillingEvent, Store, find_row, get_or_create, write_row, timestamp,
}
use third_party_vendor_risk.Billing.Webhooks.{
  Handled, effective, set_plan, is_stale, subscribed_row, linked_row, dispatch, event_key,
  apply_event,
}
use third_party_vendor_risk.Billing.Tables.{
  find_row-get_or_create, get_or_create-cases, find_row-written,
}
use third_party_vendor_risk.Billing.Effects.{
  Change, kept, held, linked, subscribed, unpaid, dispatch-Change,
}
use third_party_vendor_risk.Billing.Plans.{set_plan-rows}

-- The time of the last subscription event applied to an organization's row, and 0 before any.
unfoldable pub event_clock : ℕ → Store → ℕ
event_clock a db = elim (find_row a db.rows) [
  | none ↦ 0
  | some row ↦ elim row.last_event_at [ none ↦ 0 | some t ↦ suc t ]
]

-- The event is in the log.
abbrev pub is_logged : String → Store → Bool
is_logged key db = any (λ e. e.event_id == key) db.events

set_plan-events :
    (org : Organization) (to status : String) (db : Store)
    → (set_plan org to status db).events ≡ db.events
unfolding set_plan
set_plan-events org to status db = ground arith

pub Change-events : {db : Store} {h : Handled} → Change db h → h.2.events ≡ db.events
Change-events (kept o) = refl
Change-events {db} (held o org found) = (get_or_create-cases org.id db).2
Change-events {db} (linked org customer subscription found) = (get_or_create-cases org.id db).2
Change-events {db}
      (subscribed org sub_id customer plan status cancel until created deleted found fresh) =
    ground (
      arith,
      get_or_create-cases org.id db,
      set_plan-events org (effective plan status) status (
          write_row
            (subscribed_row (get_or_create org.id db).0 sub_id customer plan status cancel until
              created)
            (get_or_create org.id db).1),
    )
Change-events (unpaid org attempt) = refl

-- A row is written only by an event that is at least as new as the last one applied to it.
pub Change-clock :
    {db : Store} {h : Handled} (a : ℕ) → Change db h → event_clock a db ≤ event_clock a h.2
unfolding event_clock is_stale
Change-clock a (kept o) = omega arith
Change-clock {db} a (held o org found) =
    ground (arith, get_or_create-cases org.id db, find_row-get_or_create a org.id db)
Change-clock {db} a (linked org customer subscription found) = ground (
  arith,
  get_or_create-cases org.id db,
  find_row-written a org.id (linked_row (get_or_create org.id db).0 customer subscription) db,
)
Change-clock {db} a
      (subscribed org sub_id customer plan status cancel until created deleted found fresh) =
    let written =
      subscribed_row (get_or_create org.id db).0 sub_id customer plan status cancel until created in
    let stored = write_row written (get_or_create org.id db).1 in
    ground (
      arith,
      get_or_create-cases org.id db,
      set_plan-rows org (effective plan status) status stored,
      find_row-written a org.id written db,
    )
Change-clock a (unpaid org attempt) = omega arith

-- An event that was handled: one of the effects, and a row in the log.
pub record Handles (key : String) (db db' : Store) : Type 0 where
  pub handled : Handled
  pub change : Change db handled
  pub row : BillingEvent
  pub keyed : row.event_id ≡ key
  pub after : db' ≡ record (handled.2) { events = row ∷ handled.2.events }

module _ (show : Json → String) (int_of digits : String → Option ℕ)
    (prices : List (String × String)) where
  -- What an event that was processed has done: it was a duplicate and changed nothing, or it was
  -- handled.
  pub apply_event-cases :
      (now : ℕ) (db db' : Store) (event : Fields) (o : Outcome)
      → apply_event show int_of digits prices now db event ≡ some (o, db')
      → (is_logged (event_key show int_of digits event) db ≡ true) × (o ≡ duplicate) × (db' ≡ db)
        ⊎ Handles (event_key show int_of digits event) db db'
  unfolding apply_event
  apply_event-cases now db db' event o e =
      let key = event_key show int_of digits event in
      elim (Bool-cases (is_logged key db)) [
        | inl old ↦ inl (old, ground arith, ground arith)
        | inr fresh ↦ elim (Option-cases (dict_or_empty (get "data" event))) [
          | inl raised ↦ absurd (ground arith)
          | inr (body, read) ↦ elim (Option-cases (dict_or_empty (get "object" body))) [
            | inl raised ↦ absurd (ground arith)
            | inr (object, read_too) ↦
                let type = take_chars 100 (to_text show (get "type" event)) in
                let created : ℕ = elim (timestamp show int_of digits (get "created" event)) [
                  | none ↦ now
                  | some t ↦ t
                ] in
                elim (Option-cases (dispatch show int_of digits prices db type object created)) [
                  | inl raised ↦ absurd (ground arith)
                  | inr (h, did) ↦ inr (record {
                    handled = h;
                    change = dispatch-Change show int_of digits prices db type object created h did;
                    row = record {
                      event_id = key;
                      type = type;
                      org_id = h.1;
                      processed_at = now;
                      outcome = h.0;
                    };
                    keyed = refl;
                    after = ground arith;
                  })
                ]
          ]
        ]
      ]
