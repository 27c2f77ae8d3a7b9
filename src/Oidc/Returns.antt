-- ===== src/Oidc/Returns.antt =====
-- `safe_next` of app/api/sso.py: the path that a sign-in returns to.
use Prim.Native.Char.{Char, code}
use third_party_vendor_risk.Base.{
  ℕ, String, Bool, true, false, ◌&&◌, ◌||◌, not, Option, none, some, ◌==◌, nat_eq, string_eq,
  nat_beq, ltb, leb, if◌then◌else◌,
}
use third_party_vendor_risk.Profile.{text_length}

abbrev pub has_code : ℕ → Char → Bool
has_code n c = nat_beq (code c) n

-- `\\` and `/` by their code points.
abbrev pub is_slash : Char → Bool
is_slash c = has_code 47 c

abbrev pub is_backslash : Char → Bool
is_backslash c = has_code 92 c

unfoldable pub has_backslash : String → Bool
has_backslash String.[] = false
has_backslash (String.◌∷◌ c s) = is_backslash c || has_backslash s

-- `[\x21-\x7E]*$`; the `$` also stands before a line feed at the end.
unfoldable pub is_printable : String → Bool
is_printable String.[] = true
is_printable (String.◌∷◌ c s) =
    let rest = is_printable s in
    if leb 33 (code c) && leb (code c) 126 then rest else has_code 10 c && s == ""

-- `(?![/\\])`
abbrev pub starts_slashed : String → Bool
starts_slashed String.[] = false
starts_slashed (String.◌∷◌ c s) = is_slash c || is_backslash c

-- `_SAFE_NEXT`
unfoldable pub matches_safe : String → Bool
unfolding is_printable
matches_safe String.[] = false
matches_safe (String.◌∷◌ c s) = is_slash c && (not (starts_slashed s) && is_printable s)

unfoldable pub safe_next : Option String → String
unfolding has_backslash matches_safe text_length
safe_next none = "/"
safe_next (some value) =
    if value == ""
      || (ltb 512 (text_length value) || (has_backslash value || not (matches_safe value)))
    then "/"
    else value
