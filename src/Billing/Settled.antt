-- ===== src/Billing/Settled.antt =====
-- The rows that the two events of a paid checkout of app/api/billing.py find and leave.
use third_party_vendor_risk.Base.{
  ℕ, ◌≤◌, ◌≡◌, refl, ◌∙◌, ap, String, true, false, some, ◌==◌, nat_eq, string_eq, nat_beq_iff, any,
  arith, inl, inr, Option-cases,
}
use third_party_vendor_risk.Tenancy.{Organization}
use third_party_vendor_risk.Json.{str, take_chars}
use third_party_vendor_risk.Billing.Rows.{
  OrgBilling, Store, find_row, find_org, get_or_create, write_row,
}
use third_party_vendor_risk.Billing.Webhooks.{effective, is_stale, plan_for_price, linked_row}
use third_party_vendor_risk.Billing.Tables.{
  get_or_create-cases, find_row-written, find_org-set_plan,
}
use third_party_vendor_risk.Billing.Plans.{set_plan-rows}
use third_party_vendor_risk.Billing.Providers.{dev_prices, dev_event, dev_subscription, price_of}
use third_party_vendor_risk.Billing.Owners.{has_active_subscription}
use third_party_vendor_risk.Billing.StandIn.{
  Effects, NewIds, paid_session, deliver, deliver_subscription, subscribe,
}
use third_party_vendor_risk.Billing.Heard.{row, paid, active_row, active, created_sub}

module _ (d : Effects) (now : ℕ) (ids : NewIds) (db : Store) (org : Organization)
    (plan c : String) where
  -- What the first event leaves: the organizations, and the row that the second finds.
  pub paid-org :
      find_org org.id db.organizations ≡ some org
      → find_org org.id (paid d now ids db org plan c).organizations ≡ some org
  paid-org found = ap (find_org org.id) (get_or_create-cases org.id db).1 ∙ found

  paid-row : get_or_create org.id (paid d now ids db org plan c) ≡ (
    linked_row (row d now ids db org plan c) (some c) (some ids.subscription),
    (paid d now ids db org plan c),
  )
  unfolding get_or_create
  paid-row =
      let own = (get_or_create-cases org.id db).0 in
      let there =
        find_row-written org.id org.id
          (linked_row (row d now ids db org plan c) (some c) (some ids.subscription)) db own in
      ground (arith, there, nat_beq_iff org.id org.id)

  pub paid-current :
      ((r : OrgBilling) (last : ℕ)
        → find_row org.id db.rows ≡ some r
        → r.last_event_at ≡ some last
        → last ≤ now)
      → is_stale
          (get_or_create org.id (paid d now ids db org plan c)).0
          now
          (some ids.subscription)
          false
        ≡ false
  unfolding is_stale
  paid-current late =
      let same : (get_or_create org.id (paid d now ids db org plan c)).0.last_event_at
          ≡ (row d now ids db org plan c).last_event_at =
        ap (λ r. r.0.last_event_at) paid-row in
      elim (Option-cases (row d now ids db org plan c).last_event_at) [
        | inl never ↦ ground (arith, same)
        | inr (last, at) ↦ elim (get_or_create-cases org.id db).3 [
          | inl created ↦ absurd (let none_yet = created.1 in ground arith)
          | inr stored ↦
              let before = late (row d now ids db org plan c) last stored at in ground (arith, same)
        ]
      ]

  pub paid-fresh :
      any (λ e. e.event_id == take_chars 255 ids.second) db.events ≡ false
      → (take_chars 255 ids.first == take_chars 255 ids.second) ≡ false
      → any (λ e. e.event_id == take_chars 255 ids.second) (paid d now ids db org plan c).events
        ≡ false
  paid-fresh fresh differs = ground (arith, (get_or_create-cases org.id db).2)

  -- What the second event leaves.
  pub active-plan :
      find_org org.id db.organizations ≡ some org
      → find_org org.id (active d now ids db org plan c).organizations
        ≡ some (record org { plan = plan })
  unfolding effective
  active-plan found =
      let stored = get_or_create org.id (paid d now ids db org plan c) in
      let there : find_org org.id stored.1.organizations ≡ some org =
        ap (find_org org.id) (get_or_create-cases org.id (paid d now ids db org plan c)).1
        ∙ paid-org found in
      find_org-set_plan org.id org (effective plan "active") "active"
        (write_row (active_row d now ids db org plan c) stored.1) there
      ∙ (ground (arith, nat_beq_iff org.id org.id))

  pub active-subscribed :
      (ids.subscription == "") ≡ false
      → has_active_subscription (find_row org.id (active d now ids db org plan c).rows) ≡ true
  unfolding has_active_subscription
  active-subscribed named =
      let stored = get_or_create org.id (paid d now ids db org plan c) in
      let rows =
        set_plan-rows org (effective plan "active") "active"
          (write_row (active_row d now ids db org plan c) stored.1) in
      let there : find_row org.id (active d now ids db org plan c).rows
          ≡ some (active_row d now ids db org plan c) =
        ap (find_row org.id) rows
        ∙ find_row-written org.id org.id (active_row d now ids db org plan c)
            (paid d now ids db org plan c)
            (get_or_create-cases org.id (paid d now ids db org plan c)).0
        ∙ (ground (arith, nat_beq_iff org.id org.id)) in
      rw there (ground arith)

  -- Both events go through, one after the other.
  pub subscribe-active :
      (price : String)
      → price_of plan dev_prices ≡ some (plan, price)
      → plan_for_price dev_prices (some price) ≡ some plan
      → deliver d now ids db (
          dev_event ids.first "checkout.session.completed" now
            (paid_session d.show_id ids org.id plan (str c)))
        ≡ some (paid d now ids db org plan c)
      → deliver d now ids (paid d now ids db org plan c) (
          dev_event ids.second "customer.subscription.created" now
            ((created_sub d now ids db org plan c) price))
        ≡ some (active d now ids db org plan c)
      → subscribe d now ids org.id plan (str c) db ≡ (true, (active d now ids db org plan c))
  unfolding subscribe deliver_subscription dev_subscription
  subscribe-active price listed priced first second =
      rw (subscribe, first, dev_subscription, listed, deliver_subscription, second) refl
