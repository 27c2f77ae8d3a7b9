-- ===== src/Oidc/Paths.antt =====
-- `safe_next` of app/api/sso.py against the way a browser reads the target of a redirect.
use Prim.Native.Char.{Char, code}
use third_party_vendor_risk.Base.{
  ◌≤◌, ◌≡◌, refl, ◌∙◌, ap, String, Bool, true, false, ◌&&◌, ◌||◌, not, Option, none, some, ◌==◌,
  string_eq, str_eq_iff, nat_eq, ltb, leb, if◌then◌else◌, arith, inl, inr, Bool-cases,
}
use third_party_vendor_risk.Profile.{text_length}
use third_party_vendor_risk.Oidc.Returns.{
  has_code, is_slash, starts_slashed, has_backslash, is_printable, matches_safe, safe_next,
}

-- What a browser drops wherever it stands in a URL: tabs, line feeds and carriage returns.
abbrev is_dropped : Char → Bool
is_dropped c = has_code 9 c || (has_code 10 c || has_code 13 c)

unfoldable pub strip_controls : String → String
strip_controls String.[] = String.[]
strip_controls (String.◌∷◌ c s) =
    let rest = strip_controls s in if is_dropped c then rest else String.◌∷◌ c rest

-- Of what is left, a slash that no slash or backslash follows begins a path on the same site.
abbrev pub begins_path : String → Bool
begins_path String.[] = false
begins_path (String.◌∷◌ c s) = is_slash c && not (starts_slashed s)

abbrev pub is_same_site : String → Bool
is_same_site s = begins_path (strip_controls s)

starts_slashed-strip :
    (s : String)
    → is_printable s ≡ true
    → starts_slashed s ≡ false
    → starts_slashed (strip_controls s) ≡ false
unfolding strip_controls is_printable
starts_slashed-strip String.[] printable e = refl
starts_slashed-strip (String.◌∷◌ c s) printable e =
    elim (Bool-cases (leb 33 (code c) && leb (code c) 126)) [
      | inl graphic ↦
          let stays : is_dropped c ≡ false = ground arith in
          let row : strip_controls (String.◌∷◌ c s) ≡ String.◌∷◌ c (strip_controls s) =
            rw (strip_controls, stays) refl in
          ap starts_slashed row ∙ e
      | inr control ↦
          let ends : s ≡ "" = (str_eq_iff s "").0 (ground arith) in
          let goes : is_dropped c ≡ true = ground arith in
          let row : strip_controls (String.◌∷◌ c s) ≡ strip_controls s =
            rw (strip_controls, goes) refl in
          ap starts_slashed row ∙ ap (λ r. starts_slashed (strip_controls r)) ends
    ]

safe-is_same_site : (s : String) → matches_safe s ≡ true → is_same_site s ≡ true
unfolding matches_safe strip_controls
safe-is_same_site String.[] e = absurd (cc)
safe-is_same_site (String.◌∷◌ c s) e = ground (arith, starts_slashed-strip s)

-- The test of `safe_next`.
abbrev is_unsafe : String → Bool
is_unsafe s = s == "" || (ltb 512 (text_length s) || (has_backslash s || not (matches_safe s)))

-- Whatever return path is asked for, the one that is kept is of the same site as a browser reads it,
-- is no longer than 512 characters, has no backslash, and is kept as it is when it is asked for.
pub safe_next-is_same_site :
    (next : Option String)
    → (is_same_site (safe_next next) ≡ true)
      × (text_length (safe_next next) ≤ 512)
      × (has_backslash (safe_next next) ≡ false)
      × (safe_next (some (safe_next next)) ≡ safe_next next)
unfolding safe_next has_backslash text_length strip_controls matches_safe is_printable
safe_next-is_same_site none = (refl, omega arith, refl, refl)
safe_next-is_same_site (some s) = elim (Bool-cases (is_unsafe s)) [
  | inl unsafe ↦
      let row : safe_next (some s) ≡ "/" = rw (safe_next, unsafe) refl in
      rw row (refl, omega arith, refl, refl)
  | inr safe ↦
      let row : safe_next (some s) ≡ s = rw (safe_next, safe) refl in
      rw row (safe-is_same_site s (ground arith), ground arith, ground arith, row)
]
