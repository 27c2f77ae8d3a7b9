-- ===== src/Orgs/Create.antt =====
-- The creation of an organization in app/services/org_service.py: its slug, and its first owner.
-- `lower` is Python's `str.lower`, and `show` the text of a number.
pub mod Unique
mod Tests
use Prim.Native.Char.{Char, code}
use Prim.Native.String.{◌++◌}
use third_party_vendor_risk.Base.{
  ℕ, zero, suc, String, Bool, true, false, ◌&&◌, ◌||◌, Option, none, some, List, [], ◌∷◌, ◌==◌,
  nat_eq, string_eq, leb, nat_beq, any, length, if◌then◌else◌,
}
use third_party_vendor_risk.Tenancy.{Role, owner, Organization, Membership, User, Db}
use third_party_vendor_risk.Orgs.{new_membership, insert_membership}

-- `[a-z0-9]`
abbrev pub is_word : Char → Bool
is_word c = (leb b'a' (code c) && leb (code c) b'z') || (leb b'0' (code c) && leb (code c) b'9')

abbrev pub is_dash : Char → Bool
is_dash c = nat_beq (code c) b'-'

-- `re.sub(r"[^a-z0-9]+", "-", name)`; the flag tells that a run of other characters is under way.
unfoldable pub squeeze : Bool → String → String
squeeze in_run String.[] = String.[]
squeeze in_run (String.◌∷◌ c s) =
    let word = String.◌∷◌ c (squeeze false s) in
    let run = squeeze true s in
    if is_word c then word else if in_run then run else String.◌∷◌ "-" run

-- `.strip("-")`
unfoldable pub strip_start : String → String
strip_start String.[] = String.[]
strip_start (String.◌∷◌ c s) =
    let rest = strip_start s in if is_dash c then rest else String.◌∷◌ c s

unfoldable pub strip_end : String → String
strip_end String.[] = String.[]
strip_end (String.◌∷◌ c s) =
    let rest = strip_end s in if is_dash c && rest == "" then String.[] else String.◌∷◌ c rest

unfoldable pub slugify : (lower : String → String) → String → String
unfolding squeeze strip_start strip_end
slugify lower name =
    let slug = strip_end (strip_start (squeeze false (lower name))) in
    if slug == "" then "org" else slug

-- `db.scalar(select(Organization.id).where(Organization.slug == slug)) is not None`
abbrev pub is_taken : String → List Organization → Bool
is_taken slug organizations = any (λ o. o.slug == slug) organizations

module _ (show : ℕ → String) where
  -- `f"{base}-{n}"`
  abbrev pub numbered : String → ℕ → String
  numbered base n = base ++ (String.◌∷◌ "-" (show n))

  -- The loop of `_unique_slug`, with the slug that it tries and its `n`.
  unfoldable pub slug_from : (fuel n : ℕ) (base slug : String) → List Organization → Option String
  slug_from zero n base slug organizations = none
  slug_from (suc fuel) n base slug organizations =
      let rest = slug_from fuel (suc n) base (numbered base (suc n)) organizations in
      if is_taken slug organizations then rest else some slug

  -- `_unique_slug`: among one more slugs than there are organizations, one is free.
  unfoldable pub unique_slug : String → List Organization → Option String
  unfolding slug_from
  unique_slug base organizations = slug_from (suc (length organizations)) 1 base base organizations

  -- `create_org`; `org_id` is the key of the new row. `none` would be a loop that does not end.
  unfoldable pub create_org :
      (lower : String → String) (org_id : ℕ)
      → Db
      → (name : String) (owner_id : ℕ) (slug : Option String) → Option (Organization × Db)
  unfolding unique_slug slugify
  create_org lower org_id db name owner_id slug =
      let base = slugify lower (elim slug [ none ↦ name | some s ↦ if s == "" then name else s ]) in
      elim (unique_slug base db.organizations) [
        | none ↦ none
        | some free ↦
            let org : Organization = record { id = org_id; slug = free; plan = "free" } in
            some (
              org,
              insert_membership (new_membership org_id owner_id owner)
                  (record db { organizations = org ∷ db.organizations }),
            )
      ]
