-- ===== src/Base/Updates.antt =====
-- Conditional UPDATEs and DELETEs of a table: what an update of the rows that a test selects does
-- to counts and to a property of all rows.
use Prim.Native.Nat.{◌≤◌}
use mathlib.Core.Path.{◌≡◌, refl}
use mathlib.Core.Logic.{inl, inr}
use mathlib.Core.Bool.{Bool, true, false, ◌&&◌}
use mathlib.Core.List.{List, [], ◌∷◌}
use native.Mathlib.Omega.{arith}
use third_party_vendor_risk.Base.Tests.{Bool-cases}
use third_party_vendor_risk.Base.Lists.{All, any, count_if, update_if, remove_if}

module _ {ℓ} {A : Type ℓ} (p q : A → Bool) (f : A → A) where
  -- An update that brings no row into a count does not raise it.
  pub count_if-update_le :
      (xs : List A)
      → ((x : A) → q x ≡ true → p (f x) ≡ true → p x ≡ true)
      → count_if p (update_if q f xs) ≤ count_if p xs
  count_if-update_le [] keeps = omega arith
  count_if-update_le (x ∷ xs) keeps = ground (arith, keeps x, count_if-update_le xs keeps)

  -- An update that takes no row out of a count does not lower it.
  pub count_if-update_ge :
      (xs : List A)
      → ((x : A) → q x ≡ true → p x ≡ true → p (f x) ≡ true)
      → count_if p xs ≤ count_if p (update_if q f xs)
  count_if-update_ge [] keeps = omega arith
  count_if-update_ge (x ∷ xs) keeps = ground (arith, keeps x, count_if-update_ge xs keeps)

  -- An update that takes every selected row out of a count, which counts no other, empties it.
  pub count_if-update_none :
      (xs : List A)
      → ((x : A) → q x ≡ true → p (f x) ≡ false)
      → ((x : A) → q x ≡ false → p x ≡ false)
      → count_if p (update_if q f xs) ≡ 0
  count_if-update_none [] out others = refl
  count_if-update_none (x ∷ xs) out others =
      ground (arith, out x, others x, count_if-update_none xs out others)

pub All-update {ℓ κ} :
    {A : Type ℓ} (P : A → Type κ) (q : A → Bool) (f : A → A) (xs : List A)
    → ((x : A) → q x ≡ true → P x → P (f x))
    → All P xs
    → All P (update_if q f xs)
All-update P q f [] keeps a = a
All-update P q f (x ∷ xs) keeps a = elim (Bool-cases (q x)) [
  | inl hit ↦ rw hit (keeps x hit a.0, All-update P q f xs keeps a.1)
  | inr miss ↦ rw miss (a.0, All-update P q f xs keeps a.1)
]

pub count_if_mono {ℓ} :
    {A : Type ℓ} (p q : A → Bool) (xs : List A)
    → ((x : A) → p x ≡ true → q x ≡ true)
    → count_if p xs ≤ count_if q xs
count_if_mono p q [] implies = omega arith
count_if_mono p q (x ∷ xs) implies = ground (arith, implies x, count_if_mono p q xs implies)

-- An update that selects no row, and a deletion that selects none, change nothing.
pub update_if-none {ℓ} :
    {A : Type ℓ} (q : A → Bool) (f : A → A) (xs : List A)
    → count_if q xs ≡ 0
    → update_if q f xs ≡ xs
update_if-none q f [] none_hit = refl
update_if-none q f (x ∷ xs) none_hit = ground (arith, update_if-none q f xs)

pub remove_if-none {ℓ} :
    {A : Type ℓ} (q : A → Bool) (xs : List A) → ((x : A) → q x ≡ false) → remove_if q xs ≡ xs
remove_if-none q [] none_hit = refl
remove_if-none q (x ∷ xs) none_hit = ground (arith, none_hit x, remove_if-none q xs none_hit)

-- A test that selects no row, with whatever else is asked of it.
pub any-none {ℓ} :
    {A : Type ℓ} (q r : A → Bool) (xs : List A)
    → count_if q xs ≡ 0
    → any (λ x. q x && r x) xs ≡ false
any-none q r [] none_hit = refl
any-none q r (x ∷ xs) none_hit = ground (arith, any-none q r xs)

-- A deletion raises no count.
pub count_if-remove_le {ℓ} :
    {A : Type ℓ} (p q : A → Bool) (xs : List A) → count_if p (remove_if q xs) ≤ count_if p xs
count_if-remove_le p q [] = omega arith
count_if-remove_le p q (x ∷ xs) = ground (arith, count_if-remove_le p q xs)
