-- ===== src/Profile/History.antt =====
-- `record_login` of app/services/profile_service.py: the rows that are left of each user.
use third_party_vendor_risk.Base.{
  All-map, All-remove_if, ℕ, suc, ◌≤◌, ◌<◌, ◌≡◌, refl, sym, ap, subst, String, Bool, true, false,
  Option, List, [], ◌∷◌, ◌==◌, nat_eq, nat_beq_iff, any, count_if, remove_if, All, arith, inl, inr,
  Bool-cases,
}
use third_party_vendor_risk.Json.{take_chars}
use third_party_vendor_risk.Profile.{
  cut_text, LoginEvent, is_newer, of_user, recent_logins, prune, record_login,
}
use third_party_vendor_risk.Profile.Newest.{
  AreDistinct, is_pruned, prune-of_user, prune-le, recent_logins-first,
}

-- Each row is older than the one that is written, and the ids are distinct.
pub record IsHistory (id now : ℕ) (events : List LoginEvent) : Type 0 where
  pub distinct : AreDistinct events
  pub older : All (λ e. (e.id < id) × (e.created_at ≤ now)) events
  pub capped : (user_id : ℕ) → count_if (of_user user_id) events ≤ 20

fresh_id :
    (id now : ℕ) (events : List LoginEvent)
    → All (λ e. (e.id < id) × (e.created_at ≤ now)) events
    → count_if (λ e. id == e.id) events ≡ 0
fresh_id id now [] a = refl
fresh_id id now (e ∷ events) a =
    let b = a.0 in ground (arith, nat_beq_iff id e.id, fresh_id id now events a.1)

module _ (id now later : ℕ) (passes : now ≤ later) where
  All-older :
      (events : List LoginEvent)
      → All (λ e. (e.id < id) × (e.created_at ≤ now)) events
      → All (λ e. (e.id < suc id) × (e.created_at ≤ later)) events
  All-older events =
      All-map (λ e. (e.id < id) × (e.created_at ≤ now))
        (λ e. (e.id < suc id) × (e.created_at ≤ later)) events (λ e b. (omega arith, omega arith))

not_newer :
    (e : LoginEvent) (events : List LoginEvent)
    → All (λ f. (f.id < e.id) × (f.created_at ≤ e.created_at)) events
    → All (λ f. is_newer f e ≡ false) events
not_newer e [] a = tt
not_newer e (f ∷ events) a = (let b = a.0 in ground arith, not_newer e events a.1)

-- The history with the row that is written.
module _ (id now later : ℕ) (e : LoginEvent) (events : List LoginEvent) where
  written-distinct : e.id ≡ id → IsHistory id now events → AreDistinct (e ∷ events)
  written-distinct same h i =
      let at_most = h.distinct i in
      ground (
        arith,
        nat_beq_iff i e.id,
        ap (λ j. count_if (λ f. j == f.id) events),
        fresh_id id now events h.older,
      )

  prune-IsHistory :
      e.id ≡ id
      → e.created_at ≡ now
      → now ≤ later
      → IsHistory id now events
      → IsHistory (suc id) later (prune e.user_id (e ∷ events))
        × (any (λ f. f.id == id) (prune e.user_id (e ∷ events)) ≡ true)
  unfolding prune
  prune-IsHistory same at passes h =
      let user_id = e.user_id in
      let keep = recent_logins user_id 20 (e ∷ events) in
      let left = remove_if (is_pruned user_id keep) events in
      let distinct = written-distinct same h in
      let newest : All (λ f. (f.id < e.id) × (f.created_at ≤ e.created_at)) events =
        subst (λ i. All (λ f. (f.id < i) × (f.created_at ≤ e.created_at)) events) (sym same)
          (subst (λ t. All (λ f. (f.id < id) × (f.created_at ≤ t)) events) (sym at) h.older) in
      let kept = recent_logins-first e events 19 (not_newer e events newest) in
      let row : prune user_id (e ∷ events) ≡ e ∷ left = rw (prune, kept) (ground arith) in
      (
        record {
          distinct = λ i.
              let a = distinct i in omega (arith, prune-le user_id (λ f. i == f.id) (e ∷ events));
          older = subst (All (λ f. (f.id < suc id) × (f.created_at ≤ later))) (sym row) (
            (omega arith, omega arith),
            All-remove_if (λ f. (f.id < suc id) × (f.created_at ≤ later)) (is_pruned user_id keep)
                events (All-older id now later passes events h.older),
          );
          capped = λ u. elim (Bool-cases (u == user_id)) [
            | inl own ↦
                let own_id : u ≡ user_id = ground (arith, nat_beq_iff u user_id) in
                subst (λ v. count_if (of_user v) (prune user_id (e ∷ events)) ≤ 20) (sym own_id)
                  (prune-of_user user_id (e ∷ events) distinct)
            | inr other ↦
                let few = h.capped u in
                ground (
                  arith,
                  nat_beq_iff u user_id,
                  nat_beq_iff user_id u,
                  prune-le user_id (of_user u) (e ∷ events),
                )
          ];
        },
        rw row (ground (arith, nat_beq_iff e.id id)),
      )

-- Whether or not the statements raise, recording a sign-in keeps the history in order: the ids stay
-- distinct, no row is newer than the one that comes next, and each user has at most twenty. Where
-- nothing raises, the sign-in is among the rows that are left.
pub record_login-IsHistory :
    (id now later : ℕ) (fails : Bool) (user_id : ℕ) (method : String)
    (ip user_agent : Option String) (events : List LoginEvent)
    → now ≤ later
    → IsHistory id now events
    → IsHistory (suc id) later (record_login id now fails user_id method ip user_agent events)
      × (fails ≡ false
          → any (λ e. e.id == id) (record_login id now fails user_id method ip user_agent events)
            ≡ true)
unfolding record_login
record_login-IsHistory id now later true user_id method ip user_agent events passes h = (
  record {
    distinct = h.distinct;
    older = All-older id now later passes events h.older;
    capped = h.capped;
  },
  λ ok. absurd (cc),
)
record_login-IsHistory id now later false user_id method ip user_agent events passes h =
    let (kept, there) =
      prune-IsHistory id now later
        (record {
          id = id;
          user_id = user_id;
          method = take_chars 32 method;
          ip = cut_text 45 ip;
          user_agent = cut_text 300 user_agent;
          created_at = now;
        })
        events refl refl passes h in
    (kept, λ _. there)
