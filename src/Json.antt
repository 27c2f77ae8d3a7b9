-- ===== src/Json.antt =====
-- What `json.loads` returns, and how the program reads it: `d.get(k)`, the truth of a value and
-- `x or {}`. `none` is the AttributeError or TypeError of a value that is no object or list.
use third_party_vendor_risk.Base.{
  ℕ, zero, suc, ◌/◌, String, Bool, true, false, not, Option, none, some, ◌==◌, nat_eq, string_eq,
  if◌then◌else◌,
}

-- A number is a whole one or has one decimal, counted in tenths; both are 0 or more.
mutual
  pub data Json : Type 0 where
    null : Json
    bool : Bool → Json
    int : ℕ → Json
    tenths : ℕ → Json
    str : String → Json
    arr : Items → Json
    obj : Fields → Json

  pub data Items : Type 0 where
    nil : Items
    cons : Json → Items → Items

  pub data Fields : Type 0 where
    end : Fields
    field : String → Json → Fields → Fields

-- `d.get(k)`, which is None where the key is missing.
unfoldable pub get : String → Fields → Json
get k end = null
get k (field j v rest) = if j == k then v else get k rest

-- `k in d`
unfoldable pub has_key : String → Fields → Bool
has_key k end = false
has_key k (field j v rest) = if j == k then true else has_key k rest

-- `bool(v)`
abbrev pub truthy : Json → Bool
truthy null = false
truthy (bool b) = b
truthy (int n) = not (n == 0)
truthy (tenths n) = not (n == 0)
truthy (str s) = not (s == "")
truthy (arr nil) = false
truthy (arr (cons _ _)) = true
truthy (obj end) = false
truthy (obj (field _ _ _)) = true

-- `a or b`
abbrev pub or_else : Json → Json → Json
or_else a b = if truthy a then a else b

-- A value on which `.get` is called.
abbrev pub as_dict : Json → Option Fields
as_dict (obj fs) = some fs
as_dict _ = none

-- `(v or {})`, on which `.get` is called.
unfoldable pub dict_or_empty : Json → Option Fields
dict_or_empty v = if truthy v then as_dict v else some end

-- `(v or [])`, which is walked as a list of objects.
unfoldable pub list_or_empty : Json → Option Items
list_or_empty v = if truthy v then elim v [ arr xs ↦ some xs | _ ↦ none ] else some nil

-- A value that goes into a text column, which takes a text or None.
abbrev pub column : Json → Option (Option String)
column null = some none
column (str s) = some (some s)
column _ = none

-- The text, if the value is one.
abbrev pub as_text : Json → Option String
as_text (str s) = some s
as_text _ = none

-- `s[:n]`
unfoldable pub take_chars : ℕ → String → String
take_chars zero s = String.[]
take_chars (suc n) String.[] = String.[]
take_chars (suc n) (String.◌∷◌ c s) = String.◌∷◌ c (take_chars n s)

-- The rest of a `do` block runs where nothing was raised.
infixl 5 ◌>>=◌
abbrev pub ◌>>=◌ {ℓ κ} : {A : Type ℓ} {B : Type κ} → Option A → (A → Option B) → Option B
◌>>=◌ m k = elim m [ none ↦ none | some value ↦ k value ]

-- `str(v)` and `int(v)` of Python, for a value that is no text.
module _ (show : Json → String) where
  abbrev pub to_text : Json → String
  to_text (str s) = s
  to_text v = show v

-- `int(v)`, where `int_of` reads a text. `none` is a ValueError or TypeError.
module _ (int_of : String → Option ℕ) where
  abbrev pub to_int : Json → Option ℕ
  to_int (int n) = some n
  to_int (tenths n) = some (n / 10)
  to_int (bool b) = some (if b then 1 else 0)
  to_int (str s) = int_of s
  to_int _ = none
