-- ===== src/Orgs/Create/Tests.antt =====
-- Concrete slugs.
use text.Mathlib.TextLemmas.{nil≢cons, cons≢nil, tail-eq_of_cons-eq}
use third_party_vendor_risk.Base.{ap, ◌≡◌, refl, ℕ, zero, suc, String, false, some, List, [], ◌∷◌}
use third_party_vendor_risk.Tenancy.{Organization}
use third_party_vendor_risk.Orgs.Create.{slugify, is_taken, unique_slug}
use third_party_vendor_risk.Orgs.Create.Unique.{unique_slug_free}

-- A text of a number that differs from number to number.
tally : ℕ → String
tally zero = ""
tally (suc n) = String.◌∷◌ "I" (tally n)

tally_injective : (m n : ℕ) → tally m ≡ tally n → m ≡ n
unfolding tally
tally_injective zero zero h = refl
tally_injective zero (suc n) h = absurd (nil≢cons h)
tally_injective (suc m) zero h = absurd (cons≢nil h)
tally_injective (suc m) (suc n) h = ap suc (tally_injective m n (tail-eq_of_cons-eq h))

abbrev acme : List Organization
acme =
    record { id = 1; slug = "acme"; plan = "free" }
    ∷ record { id = 2; slug = "acme-II"; plan = "free" }
    ∷ []

slugify_test : slugify (λ s. s) "  acme & co.!" ≡ "acme-co"
unfolding slugify
slugify_test = refl

unique_slug_test : unique_slug tally "acme" acme ≡ some "acme-III"
unfolding unique_slug tally
unique_slug_test = refl

unique_slug_free_example :
    (slug : String) × (unique_slug tally "acme" acme ≡ some slug) × (is_taken slug acme ≡ false)
unique_slug_free_example = unique_slug_free tally "acme" acme tally_injective
