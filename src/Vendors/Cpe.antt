-- ===== src/Vendors/Cpe.antt =====
-- The product prefix of a CPE: `_cpe_fields` and `cpe_prefix` of core/sbom.py. `str.strip`,
-- `str.lower` and `urllib.parse.unquote` are parameters.
use Prim.Native.Char.{Char, code}
use Prim.Native.String.{◌++◌ as ◌^◌}
use third_party_vendor_risk.Base.{
  ℕ, zero, suc, String, Bool, true, false, ◌&&◌, ◌||◌, not, Option, none, some, List, [], ◌∷◌, ◌==◌,
  string_eq, nat_beq, leb, if◌then◌else◌,
}

abbrev pub is_char : ℕ → Char → Bool
is_char n c = nat_beq (code c) n

-- One more letter of the first field.
abbrev pub push : Char → List String → List String
push c [] = String.◌∷◌ c "" ∷ []
push c (f ∷ fields) = String.◌∷◌ c f ∷ fields

-- `_UNESCAPED_COLON.split`: a colon splits unless a backslash stands right before it.
unfoldable pub split_unescaped : (escaped : Bool) → String → List String
split_unescaped escaped String.[] = "" ∷ []
split_unescaped escaped (String.◌∷◌ c s) =
    let rest = split_unescaped (is_char b'\\' c) s in
    if is_char b':' c && not escaped then "" ∷ rest else push c rest

-- `s.split(":")`
unfoldable pub split_colons : String → List String
split_colons String.[] = "" ∷ []
split_colons (String.◌∷◌ c s) =
    let rest = split_colons s in if is_char b':' c then "" ∷ rest else push c rest

unfoldable pub starts_with : String → String → Bool
starts_with String.[] s = true
starts_with (String.◌∷◌ c p) String.[] = false
starts_with (String.◌∷◌ c p) (String.◌∷◌ d s) =
    let rest = starts_with p s in is_char (code c) d && rest

-- `s[n:]` and `s[:n]`
unfoldable pub drop_text : ℕ → String → String
drop_text zero s = s
drop_text (suc n) String.[] = ""
drop_text (suc n) (String.◌∷◌ c s) = drop_text n s

unfoldable pub take_text : ℕ → String → String
take_text zero s = ""
take_text (suc n) String.[] = ""
take_text (suc n) (String.◌∷◌ c s) = let rest = take_text n s in String.◌∷◌ c rest

-- A character that `_NEEDS_ESCAPE` leaves: a letter, a digit, a dot, `_` or `-`.
abbrev pub is_plain : Char → Bool
is_plain c =
    let n = code c in
    (leb b'A' n && leb n b'Z')
    || (leb b'a' n && leb n b'z')
    || (leb b'0' n && leb n b'9')
    || nat_beq n b'.'
    || nat_beq n b'_'
    || nat_beq n b'-'

unfoldable pub escape : String → String
escape String.[] = ""
escape (String.◌∷◌ c s) =
    let rest = escape s in if is_plain c then String.◌∷◌ c rest else "\\" ^ String.◌∷◌ c rest

abbrev pub is_valid_part : String → Bool
is_valid_part part = part == "a" || part == "o" || part == "h"

abbrev pub is_any_value : String → Bool
is_any_value s = s == "" || s == "*" || s == "-"

module _ (strip lower unquote : String → String) where
  -- The fields of a product, unless the CPE names none.
  abbrev pub checked : (part vendor product : String) → Option (String × String × String)
  checked part vendor product =
      if not (is_valid_part (lower part)) || is_any_value vendor || is_any_value product
      then none
      else some (lower part, lower vendor, lower product)

  -- `_cpe_fields`
  unfoldable pub cpe_fields : String → Option (String × String × String)
  unfolding split_unescaped split_colons starts_with drop_text escape
  cpe_fields text =
      let cpe = strip text in
      let lowered = lower cpe in
      if starts_with "cpe:2.3:" lowered
      then (elim (split_unescaped false cpe) [
        | (_ ∷ _ ∷ part ∷ vendor ∷ product ∷ _) ↦ checked part vendor product
        | _ ↦ none
      ])
      else if starts_with "cpe:/" lowered
      then (elim (split_colons (drop_text 5 cpe)) [
        | (part ∷ vendor ∷ product ∷ _) ↦
            checked part (escape (unquote vendor)) (escape (unquote product))
        | _ ↦ none
      ])
      else none

  unfoldable pub cpe_prefix : String → Option String
  unfolding cpe_fields
  cpe_prefix cpe = elim (cpe_fields cpe) [
    | none ↦ none
    | some (part, vendor, product) ↦ some ("cpe:2.3:" ^ part ^ ":" ^ vendor ^ ":" ^ product)
  ]
