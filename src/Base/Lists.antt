-- ===== src/Base/Lists.antt =====
-- Lists over the native numbers, and the queries that the program makes of a table: the first
-- row that a test selects, the count of such rows, an update in place and a deletion.
use Prim.Native.Nat.{ℕ, suc, ◌+◌, ◌≤◌, ◌<◌}
use mathlib.Core.Path.{◌≡◌, refl, sym, subst, ap}
use mathlib.Core.Logic.{inl, inr, ◌↔◌}
use mathlib.Core.Bool.{Bool, true, false, ◌||◌, ◌&&◌}
use mathlib.Core.Option.{Option, none, some, some-injective}
use mathlib.Core.List.{List, [], ◌∷◌, ◌++◌}
use native.Mathlib.Omega.{arith}
use third_party_vendor_risk.Base.Tests.{if◌then◌else◌, Bool-cases}

module _ {ℓ} {A : Type ℓ} where
  abbrev pub length : List A → ℕ
  length [] = 0
  length (x ∷ xs) = suc (length xs)

  -- `any(p(x) for x in xs)`
  abbrev pub any : (A → Bool) → List A → Bool
  any p [] = false
  any p (x ∷ xs) = p x || any p xs

  abbrev pub all : (A → Bool) → List A → Bool
  all p [] = true
  all p (x ∷ xs) = p x && all p xs

  -- `sum(1 for x in xs if p(x))`, and the count of a query.
  abbrev pub count_if : (A → Bool) → List A → ℕ
  count_if p [] = 0
  count_if p (x ∷ xs) = (if p x then 1 else 0) + count_if p xs

  -- The first row that the test selects.
  abbrev pub find_first : (A → Bool) → List A → Option A
  find_first p [] = none
  find_first p (x ∷ xs) = if p x then some x else find_first p xs

  -- `[x for x in xs if p(x)]`
  abbrev pub keep_if : (A → Bool) → List A → List A
  keep_if p [] = []
  keep_if p (x ∷ xs) = if p x then x ∷ keep_if p xs else keep_if p xs

  -- The rows that the test selects are changed in place.
  abbrev pub update_if : (A → Bool) → (A → A) → List A → List A
  update_if p f [] = []
  update_if p f (x ∷ xs) = (if p x then f x else x) ∷ update_if p f xs

  -- The rows that the test selects are deleted.
  abbrev pub remove_if : (A → Bool) → List A → List A
  remove_if p [] = []
  remove_if p (x ∷ xs) = if p x then remove_if p xs else x ∷ remove_if p xs

  abbrev pub All {κ} : (A → Type κ) → List A → Type κ
  All P [] = Unit
  All P (x ∷ xs) = P x × All P xs

  pub length-append : (xs ys : List A) → length (xs ++ ys) ≡ length xs + length ys
  length-append [] ys = omega arith
  length-append (x ∷ xs) ys = omega (arith, length-append xs ys)

  pub count_if-append :
      (p : A → Bool) (xs ys : List A) → count_if p (xs ++ ys) ≡ count_if p xs + count_if p ys
  count_if-append p [] ys = omega arith
  count_if-append p (x ∷ xs) ys = omega (arith, count_if-append p xs ys)

  pub count_if-le_length : (p : A → Bool) (xs : List A) → count_if p xs ≤ length xs
  count_if-le_length p [] = omega arith
  count_if-le_length p (x ∷ xs) = ground (arith, count_if-le_length p xs)

  -- What a query returns does pass its test.
  pub find_first_sound :
      (p : A → Bool) (xs : List A) (x : A) → find_first p xs ≡ some x → p x ≡ true
  find_first_sound p [] x h = cc
  find_first_sound p (y ∷ ys) x h = ground (arith, find_first_sound p ys x)

  -- A row that passes is not missed.
  pub find_first-none : (p : A → Bool) (xs : List A) → find_first p xs ≡ none → count_if p xs ≡ 0
  find_first-none p [] h = refl
  find_first-none p (x ∷ xs) h = ground (arith, find_first-none p xs)

  pub All-map {κ μ} :
      (P : A → Type κ) (Q : A → Type μ) (xs : List A) → ((x : A) → P x → Q x) → All P xs → All Q xs
  All-map P Q [] f a = tt
  All-map P Q (x ∷ xs) f a = (f x a.0, All-map P Q xs f a.1)

  -- What holds of all rows holds of those that are kept.
  pub All-keep_if {κ} :
      (P : A → Type κ) (q : A → Bool) (xs : List A) → All P xs → All P (keep_if q xs)
  All-keep_if P q [] a = tt
  All-keep_if P q (x ∷ xs) a = elim (Bool-cases (q x)) [
    | inl kept ↦
        let row : keep_if q (x ∷ xs) ≡ x ∷ keep_if q xs = rw kept refl in
        subst (All P) (sym row) (a.0, All-keep_if P q xs a.1)
    | inr gone ↦
        let row : keep_if q (x ∷ xs) ≡ keep_if q xs = rw gone refl in
        subst (All P) (sym row) (All-keep_if P q xs a.1)
  ]

  pub All-remove_if {κ} :
      (P : A → Type κ) (q : A → Bool) (xs : List A) → All P xs → All P (remove_if q xs)
  All-remove_if P q [] a = tt
  All-remove_if P q (x ∷ xs) a = elim (Bool-cases (q x)) [
    | inl gone ↦
        let row : remove_if q (x ∷ xs) ≡ remove_if q xs = rw gone refl in
        subst (All P) (sym row) (All-remove_if P q xs a.1)
    | inr kept ↦
        let row : remove_if q (x ∷ xs) ≡ x ∷ remove_if q xs = rw kept refl in
        subst (All P) (sym row) (a.0, All-remove_if P q xs a.1)
  ]

  pub All-find_first {κ} :
      (P : A → Type κ) (p : A → Bool) (xs : List A) (x : A)
      → All P xs
      → find_first p xs ≡ some x
      → P x
  All-find_first P p [] x a h = absurd (cc)
  All-find_first P p (y ∷ ys) x a h = elim (Bool-cases (p y)) [
    | inl hit ↦ let e : y ≡ x = some-injective y x (rw hit at h) in subst P e a.0
    | inr miss ↦ All-find_first P p ys x a.1 (rw miss at h)
  ]

  pub any-iff_count : (p : A → Bool) (xs : List A) → (any p xs ≡ true) ↔ (0 < count_if p xs)
  any-iff_count p [] = ground arith
  any-iff_count p (x ∷ xs) = ground (arith, any-iff_count p xs)

  -- A row that a query finds is counted by every test that it passes.
  pub count_if_pos :
      (p q : A → Bool) (xs : List A) (x : A)
      → find_first p xs ≡ some x
      → q x ≡ true
      → 0 < count_if q xs
  count_if_pos p q [] x h passes = absurd (cc)
  count_if_pos p q (y ∷ ys) x h passes = elim (Bool-cases (p y)) [
    | inl hit ↦ let e : y ≡ x = some-injective y x (rw hit at h) in ground (arith, ap q e)
    | inr miss ↦ ground (arith, count_if_pos p q ys x (rw miss at h) passes)
  ]

  -- A row that a query finds is found by every test that it alone passes.
  pub find_first_unique :
      (p q : A → Bool) (xs : List A) (x : A)
      → find_first p xs ≡ some x
      → q x ≡ true
      → count_if q xs ≤ 1
      → find_first q xs ≡ some x
  find_first_unique p q [] x h passes once = absurd (cc)
  find_first_unique p q (y ∷ ys) x h passes once = elim (Bool-cases (p y)) [
    | inl hit ↦ let e : y ≡ x = some-injective y x (rw hit at h) in ground (arith, e, ap q e)
    | inr miss ↦ ground (
      arith,
      count_if_pos p q ys x (rw miss at h) passes,
      find_first_unique p q ys x (rw miss at h) passes,
    )
  ]
