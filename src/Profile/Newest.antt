-- ===== src/Profile/Newest.antt =====
-- `recent_logins` and the DELETE of `record_login` in app/services/profile_service.py: the rows that are
-- newest and how many are left.
use third_party_vendor_risk.Base.{
  All-keep_if, ℕ, zero, suc, ◌+◌, ◌≤◌, ◌≡◌, refl, sym, subst, Bool, true, false, ◌&&◌, ◌||◌, not,
  List, [], ◌∷◌, ◌==◌, nat_eq, count_if, keep_if, remove_if, length, All, arith, inl, inr,
  Bool-cases,
}
use third_party_vendor_risk.Profile.{
  LoginEvent, is_newer, insert_event, newest_first, limit, of_user, recent_logins, is_among, prune,
}

-- The ids of the rows are distinct.
abbrev pub AreDistinct : List LoginEvent → Type 0
AreDistinct events = (i : ℕ) → count_if (λ e. i == e.id) events ≤ 1

limit-le : (n : ℕ) (xs : List LoginEvent) → length (limit n xs) ≤ n
unfolding limit
limit-le zero xs = omega arith
limit-le (suc n) [] = omega arith
limit-le (suc n) (x ∷ xs) = omega (arith, limit-le n xs)

module _ (p q : LoginEvent → Bool) where
  count_if-or :
      (xs : List LoginEvent) → count_if (λ e. p e || q e) xs ≤ count_if p xs + count_if q xs
  count_if-or [] = omega arith
  count_if-or (x ∷ xs) = ground (arith, count_if-or xs)

  count_if-remove_if :
      (xs : List LoginEvent) → count_if q (remove_if p xs) ≡ count_if (λ e. q e && not (p e)) xs
  count_if-remove_if [] = refl
  count_if-remove_if (x ∷ xs) = ground (arith, count_if-remove_if xs)

  count_if-le :
      (xs : List LoginEvent)
      → ((e : LoginEvent) → p e ≡ true → q e ≡ true)
      → count_if p xs ≤ count_if q xs
  count_if-le [] f = omega arith
  count_if-le (x ∷ xs) f = ground (arith, count_if-le xs f, f x)

-- Rows with distinct ids that share the ids of a list are no more than it.
count_if-is_among :
    (events keep : List LoginEvent)
    → AreDistinct events
    → count_if (λ e. is_among e keep) events ≤ length keep
count_if-is_among events [] distinct = count_none events
  where
    count_none : (xs : List LoginEvent) → count_if (λ e. false) xs ≤ 0
    count_none [] = omega arith
    count_none (x ∷ xs) = omega (arith, count_none xs)
count_if-is_among events (k ∷ keep) distinct = omega (
  arith,
  count_if-or (λ e. k.id == e.id) (λ e. is_among e keep) events,
  count_if-is_among events keep distinct,
  distinct k.id,
)

-- The test of the DELETE.
abbrev pub is_pruned : ℕ → List LoginEvent → LoginEvent → Bool
is_pruned user_id keep e = of_user user_id e && not (is_among e keep)

pub prune-of_user :
    (user_id : ℕ) (events : List LoginEvent)
    → AreDistinct events
    → count_if (of_user user_id) (prune user_id events) ≤ 20
unfolding prune recent_logins
prune-of_user user_id events distinct =
    let keep = limit 20 (newest_first (keep_if (of_user user_id) events)) in
    omega (
      arith,
      count_if-remove_if (is_pruned user_id keep) (of_user user_id) events,
      count_if-le (λ e. of_user user_id e && not (is_pruned user_id keep e)) (λ e. is_among e keep)
          events (λ e h. ground arith),
      count_if-is_among events keep distinct,
      limit-le 20 (newest_first (keep_if (of_user user_id) events)),
    )

-- A deletion leaves no more rows.
pub prune-le :
    (user_id : ℕ) (q : LoginEvent → Bool) (events : List LoginEvent)
    → count_if q (prune user_id events) ≤ count_if q events
unfolding prune
prune-le user_id q events =
    let drop = is_pruned user_id (recent_logins user_id 20 events) in
    omega (
      arith,
      count_if-remove_if drop q events,
      count_if-le (λ e. q e && not (drop e)) q events (λ e h. ground arith),
    )

module _ (P : LoginEvent → Type 0) where
  All-insert :
      (e : LoginEvent) (events : List LoginEvent)
      → P e
      → All P events
      → All P (insert_event e events)
  unfolding insert_event
  All-insert e [] h a = (h, tt)
  All-insert e (f ∷ events) h a = elim (Bool-cases (is_newer f e)) [
    | inl newer ↦
        let row : insert_event e (f ∷ events) ≡ f ∷ insert_event e events =
          rw (insert_event, newer) refl in
        subst (All P) (sym row) (a.0, All-insert e events h a.1)
    | inr older ↦
        let row : insert_event e (f ∷ events) ≡ e ∷ f ∷ events = rw (insert_event, older) refl in
        subst (All P) (sym row) (h, a)
  ]

  All-newest_first : (events : List LoginEvent) → All P events → All P (newest_first events)
  unfolding newest_first
  All-newest_first [] a = tt
  All-newest_first (e ∷ events) a =
      All-insert e (newest_first events) a.0 (All-newest_first events a.1)

-- A row that none is newer than comes first.
insert_event-first :
    (e : LoginEvent) (events : List LoginEvent)
    → All (λ f. is_newer f e ≡ false) events
    → insert_event e events ≡ e ∷ events
unfolding insert_event
insert_event-first e [] a = refl
insert_event-first e (f ∷ events) a = rw (insert_event, a.0) refl

pub recent_logins-first :
    (e : LoginEvent) (events : List LoginEvent) (n : ℕ)
    → All (λ f. is_newer f e ≡ false) events
    → is_among e (recent_logins e.user_id (suc n) (e ∷ events)) ≡ true
unfolding recent_logins newest_first limit
recent_logins-first e events n a =
    let own = keep_if (of_user e.user_id) events in
    let never = λ (f : LoginEvent). is_newer f e ≡ false in
    let first =
      insert_event-first e (newest_first own)
        (All-newest_first never own (All-keep_if never (of_user e.user_id) events a)) in
    let mine : of_user e.user_id e ≡ true = ground arith in
    let row : recent_logins e.user_id (suc n) (e ∷ events) ≡ e ∷ limit n (newest_first own) =
      rw (recent_logins, mine, newest_first, first, limit) refl in
    rw row (ground arith)
