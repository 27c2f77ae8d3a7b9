-- ===== src/Storage.antt =====
-- Download links of the local storage: `check_key` and `LocalStorage` of
-- app/services/object_storage.py, and the test of `serve_local_export` in app/api/exports.py. `mac` is
-- the keyed hash and `show` the text of a number. A link is kept by its parts, not as the text that
-- `urlencode` makes of them.
pub mod Links
mod Tests
use Prim.Native.Char.{Char, code}
use Prim.Native.String.{◌++◌ as ◌^◌}
use third_party_vendor_risk.Base.{
  ℕ, suc, ◌+◌, String, Bool, true, false, ◌&&◌, ◌||◌, not, Option, none, some, ◌==◌, string_eq,
  nat_beq, leb, ltb, if◌then◌else◌,
}

-- `[A-Za-z0-9_-]`, the first character of a segment.
abbrev pub is_key_start : Char → Bool
is_key_start c =
    let n = code c in
    (leb b'A' n && leb n b'Z')
    || (leb b'a' n && leb n b'z')
    || (leb b'0' n && leb n b'9')
    || nat_beq n b'_'
    || nat_beq n b'-'

-- `[A-Za-z0-9._-]`, a further one.
abbrev pub is_key_char : Char → Bool
is_key_char c = is_key_start c || nat_beq (code c) b'.'

-- `_KEY_RE` from some place of a key on; `start` says that a segment begins there.
unfoldable pub is_key_from : (start : Bool) → String → Bool
is_key_from start String.[] = not start
is_key_from start (String.◌∷◌ c s) =
    let segment = is_key_from false s in
    let next = is_key_from true s in
    if start
    then is_key_start c && segment
    else if nat_beq (code c) b'/'
    then next
    else is_key_char c && segment

unfoldable pub size : String → ℕ
size String.[] = 0
size (String.◌∷◌ c s) = suc (size s)

-- `_MAX_KEY_LEN`
abbrev pub max_key_len : ℕ
max_key_len = 512

-- `check_key`; false is the ValueError.
unfoldable pub check_key : String → Bool
unfolding is_key_from size
check_key key = leb (size key) max_key_len && is_key_from true key

pub record Link : Type 0 where
  pub key : String
  pub exp : ℕ
  pub filename : String
  pub content_type : String
  pub sig : String

-- The limits of the query of `serve_local_export`; false is a 422.
unfoldable pub in_limits : Link → Bool
unfolding size
in_limits link =
    leb (size link.filename) 200 && leb (size link.content_type) 100 && leb (size link.sig) 128

abbrev pub line : String → String → String
line first rest = first ^ String.◌∷◌ "\n" rest

module _ (mac : String → String) (show : ℕ → String) where
  -- `"\n".join((key, str(exp), filename, content_type))`
  abbrev pub message : (key : String) (exp : ℕ) (filename content_type : String) → String
  message key exp filename content_type = line key (line (show exp) (line filename content_type))

  -- `_signature`
  unfoldable pub signature : (key : String) (exp : ℕ) (filename content_type : String) → String
  signature key exp filename content_type = mac (message key exp filename content_type)

  -- `signed_url`; `none` is the ValueError of `check_key`.
  unfoldable pub signed_url :
      (now : ℕ) (key filename content_type : String) (expires_in : ℕ) → Option Link
  unfolding signature check_key
  signed_url now key filename content_type expires_in =
      if check_key key
      then some (record {
        key = key;
        exp = now + expires_in;
        filename = filename;
        content_type = content_type;
        sig = signature key (now + expires_in) filename content_type;
      })
      else none

  unfoldable pub verify : (now : ℕ) → Link → Bool
  unfolding signature
  verify now link =
      if ltb link.exp now
      then false
      else link.sig == signature link.key link.exp link.filename link.content_type

  -- `serve_local_export` serves the file, if it is there: the limits of its query, `verify`, then
  -- `path_for`, which checks the key.
  unfoldable pub is_served : (now : ℕ) → Link → Bool
  unfolding verify check_key in_limits
  is_served now link = in_limits link && verify now link && check_key link.key
