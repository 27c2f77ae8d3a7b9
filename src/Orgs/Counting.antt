-- ===== src/Orgs/Counting.antt =====
-- How an insertion, an update in place and a deletion move the counts of members and owners.
use third_party_vendor_risk.Base.{
  ◌+◌, ◌≤◌, ◌≡◌, refl, Bool, true, false, some, List, [], ◌∷◌, arith, nat_eq, string_eq, count_if,
  find_first, update_if, remove_if,
}

module _ {A : Type 0} (q : A → Bool) where
  -- An update costs a count at most the rows that it touches.
  pub count_if-update_le :
      (p : A → Bool) (f : A → A) (xs : List A)
      → count_if p xs ≤ count_if p (update_if q f xs) + count_if q xs
  count_if-update_le p f [] = omega arith
  count_if-update_le p f (x ∷ xs) = ground (arith, count_if-update_le p f xs)

  -- An update that turns no counted row into one that is not counted lowers no count.
  pub count_if-update_mono :
      (p : A → Bool) (f : A → A)
      → ((x : A) → q x ≡ true → p x ≡ true → p (f x) ≡ true)
      → (xs : List A) → count_if p xs ≤ count_if p (update_if q f xs)
  count_if-update_mono p f keep [] = omega arith
  count_if-update_mono p f keep (x ∷ xs) = ground (arith, keep x, count_if-update_mono p f keep xs)

  -- An update that leaves a test alone leaves its count alone.
  pub count_if-update_same :
      (p : A → Bool) (f : A → A)
      → ((x : A) → q x ≡ true → p (f x) ≡ p x)
      → (xs : List A) → count_if p (update_if q f xs) ≡ count_if p xs
  count_if-update_same p f keep [] = refl
  count_if-update_same p f keep (x ∷ xs) = ground (arith, keep x, count_if-update_same p f keep xs)

  pub update_if-none : (f : A → A) (xs : List A) → count_if q xs ≡ 0 → update_if q f xs ≡ xs
  update_if-none f [] h = refl
  update_if-none f (x ∷ xs) h = ground (arith, update_if-none f xs)

  -- Where the only row that is touched was not counted, no count is lowered.
  pub count_if-update_uncounted :
      (p : A → Bool) (f : A → A) (m : A) (xs : List A)
      → find_first q xs ≡ some m
      → count_if q xs ≤ 1
      → p m ≡ false
      → count_if p xs ≤ count_if p (update_if q f xs)
  count_if-update_uncounted p f m [] found unique uncounted = omega arith
  count_if-update_uncounted p f m (x ∷ xs) found unique uncounted =
      ground (arith, update_if-none f xs, count_if-update_uncounted p f m xs)

  pub count_if-remove_le :
      (p : A → Bool) (xs : List A) → count_if p (remove_if q xs) ≤ count_if p xs
  count_if-remove_le p [] = omega arith
  count_if-remove_le p (x ∷ xs) = ground (arith, count_if-remove_le p xs)

  pub count_if-remove_add :
      (p : A → Bool) (xs : List A) → count_if p xs ≤ count_if p (remove_if q xs) + count_if q xs
  count_if-remove_add p [] = omega arith
  count_if-remove_add p (x ∷ xs) = ground (arith, count_if-remove_add p xs)

  pub remove_if-none : (xs : List A) → count_if q xs ≡ 0 → remove_if q xs ≡ xs
  remove_if-none [] h = refl
  remove_if-none (x ∷ xs) h = ground (arith, remove_if-none xs)

  pub count_if-remove_uncounted :
      (p : A → Bool) (m : A) (xs : List A)
      → find_first q xs ≡ some m
      → count_if q xs ≤ 1
      → p m ≡ false
      → count_if p xs ≤ count_if p (remove_if q xs)
  count_if-remove_uncounted p m [] found unique uncounted = omega arith
  count_if-remove_uncounted p m (x ∷ xs) found unique uncounted =
      ground (arith, remove_if-none xs, count_if-remove_uncounted p m xs)

  -- A deletion leaves the counts of other rows alone.
  pub count_if-remove_other :
      (p : A → Bool)
      → ((x : A) → q x ≡ true → p x ≡ false)
      → (xs : List A) → count_if p (remove_if q xs) ≡ count_if p xs
  count_if-remove_other p other [] = refl
  count_if-remove_other p other (x ∷ xs) = ground (arith, other x, count_if-remove_other p other xs)

  pub count_if-remove_self : (xs : List A) → count_if q (remove_if q xs) ≡ 0
  count_if-remove_self [] = refl
  count_if-remove_self (x ∷ xs) = ground (arith, count_if-remove_self xs)
