-- ===== src/Orgs/Create/Unique.antt =====
-- The loop of `_unique_slug` in app/services/org_service.py: it finds a free slug.
use text.Mathlib.TextLemmas.{append_cancel_left, append-nil, cons≢nil, tail-eq_of_cons-eq}
use third_party_vendor_risk.Base.{
  ℕ, zero, suc, ◌≤◌, ◌<◌, ◌≡◌, refl, sym, ◌∙◌, String, Bool, true, false, some, List, [], ◌∷◌, ◌==◌,
  string_eq, str_eq_iff, arith, All, length, remove_if, ◌⊎◌, inl, inr, Bool-cases,
}
use third_party_vendor_risk.Tenancy.{Organization}
use third_party_vendor_risk.Orgs.Create.{is_taken, numbered, slug_from, unique_slug}

abbrev has_slug : String → Organization → Bool
has_slug slug o = o.slug == slug

-- An organization that takes a slug can be set aside.
length-remove_le :
    (slug : String) (l : List Organization) → length (remove_if (has_slug slug) l) ≤ length l
length-remove_le slug [] = omega arith
length-remove_le slug (o ∷ l) = ground (arith, length-remove_le slug l)

length-remove_lt :
    (slug : String) (l : List Organization)
    → is_taken slug l ≡ true
    → length (remove_if (has_slug slug) l) < length l
length-remove_lt slug [] h = cc
length-remove_lt slug (o ∷ l) h = ground (arith, length-remove_le slug l, length-remove_lt slug l)

remove-is_taken :
    (slug other : String) (l : List Organization)
    → (other ≡ slug → ⊥)
    → is_taken other l ≡ true
    → is_taken other (remove_if (has_slug slug) l) ≡ true
remove-is_taken slug other [] differ h = h
remove-is_taken slug other (o ∷ l) differ h =
    ground
      (arith, remove-is_taken slug other l differ, str_eq_iff o.slug slug, str_eq_iff o.slug other)

-- All different from one another.
abbrev AreDistinct : List String → Type 0
AreDistinct [] = Unit
AreDistinct (s ∷ ss) = All (λ d. d ≡ s → ⊥) ss × AreDistinct ss

All-remove_taken :
    (slug : String) (ss : List String) (l : List Organization)
    → All (λ d. d ≡ slug → ⊥) ss
    → All (λ d. is_taken d l ≡ true) ss
    → All (λ d. is_taken d (remove_if (has_slug slug) l) ≡ true) ss
All-remove_taken slug [] l differ taken = tt
All-remove_taken slug (d ∷ ss) l differ taken =
    (remove-is_taken slug d l differ.0 taken.0, All-remove_taken slug ss l differ.1 taken.1)

-- There are no more taken slugs than organizations.
taken-le :
    (ss : List String) (l : List Organization)
    → AreDistinct ss
    → All (λ d. is_taken d l ≡ true) ss
    → length ss ≤ length l
taken-le [] l distinct taken = omega arith
taken-le (s ∷ ss) l distinct taken = omega (
  arith,
  length-remove_lt s l taken.0,
  taken-le ss (remove_if (has_slug s) l) distinct.1 (All-remove_taken s ss l distinct.0 taken.1),
)

module _ (show : ℕ → String) (injective : (m n : ℕ) → show m ≡ show n → m ≡ n) (base : String) where
  numbered-ne : (m n : ℕ) → m < n → numbered show base n ≡ numbered show base m → ⊥
  numbered-ne m n less same =
      let equal = injective n m (
        tail-eq_of_cons-eq
          (append_cancel_left base (String.◌∷◌ "-" (show n)) (String.◌∷◌ "-" (show m)) same)) in
      omega arith

  numbered-ne_base : (n : ℕ) → numbered show base n ≡ base → ⊥
  numbered-ne_base n same =
      cons≢nil (append_cancel_left base (String.◌∷◌ "-" (show n)) "" (same ∙ sym (append-nil base)))

  -- The slugs that are tried after the `n`-th.
  tries : (fuel n : ℕ) → List String
  tries zero n = []
  tries (suc fuel) n = numbered show base (suc n) ∷ tries fuel (suc n)

  tries-ne : (fuel n m : ℕ) → m ≤ n → All (λ d. d ≡ numbered show base m → ⊥) (tries fuel n)
  unfolding tries
  tries-ne zero n m h = tt
  tries-ne (suc fuel) n m h =
      (numbered-ne m (suc n) (omega arith), tries-ne fuel (suc n) m (omega arith))

  tries-ne_base : (fuel n : ℕ) → All (λ d. d ≡ base → ⊥) (tries fuel n)
  unfolding tries
  tries-ne_base zero n = tt
  tries-ne_base (suc fuel) n = (numbered-ne_base (suc n), tries-ne_base fuel (suc n))

  tries-AreDistinct : (fuel n : ℕ) → AreDistinct (tries fuel n)
  unfolding tries
  tries-AreDistinct zero n = tt
  tries-AreDistinct (suc fuel) n =
      (tries-ne fuel (suc n) (suc n) (omega arith), tries-AreDistinct fuel (suc n))

  length-tries : (fuel n : ℕ) → length (tries fuel n) ≡ fuel
  unfolding tries
  length-tries zero n = refl
  length-tries (suc fuel) n = omega (arith, length-tries fuel (suc n))

  -- The loop gives up only when all that it tries are taken.
  slug_from-cases :
      (fuel n : ℕ) (slug : String) (l : List Organization)
      → ((s : String) × (slug_from show (suc fuel) n base slug l ≡ some s) × (is_taken s l ≡ false))
        ⊎ (is_taken slug l ≡ true) × All (λ d. is_taken d l ≡ true) (tries fuel n)
  unfolding slug_from tries
  slug_from-cases zero n slug l = elim (Bool-cases (is_taken slug l)) [
    | inl taken ↦ inr (taken, tt)
    | inr free ↦ inl (slug, rw free refl, free)
  ]
  slug_from-cases (suc fuel) n slug l = elim (Bool-cases (is_taken slug l)) [
    | inr free ↦ inl (slug, rw free refl, free)
    | inl taken ↦ elim (slug_from-cases fuel (suc n) (numbered show base (suc n)) l) [
      | inl (s, found, free) ↦ inl (s, rw taken found, free)
      | inr (next, rest) ↦ inr (taken, (next, rest))
    ]
  ]

-- The loop for a slug ends, and the slug that it finds is free: among the base and the numbered
-- slugs one is not taken, since different numbers have different texts.
pub unique_slug_free :
    (show : ℕ → String) (base : String) (organizations : List Organization)
    → ((m n : ℕ) → show m ≡ show n → m ≡ n)
    → (slug : String) × (unique_slug show base organizations ≡ some slug)
      × (is_taken slug organizations ≡ false)
unfolding unique_slug
unique_slug_free show base organizations injective =
    let size = length organizations in
    elim (slug_from-cases show injective base size 1 base organizations) [
      | inl found ↦ found
      | inr (taken, rest) ↦ absurd (
          omega (
            arith,
            length-tries show injective base size 1,
            taken-le (base ∷ tries show injective base size 1) organizations
                (
                  tries-ne_base show injective base size 1,
                  tries-AreDistinct show injective base size 1,
                )
                (taken, rest),
          ))
    ]
