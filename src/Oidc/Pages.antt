-- ===== src/Oidc/Pages.antt =====
-- The pages of app/api/sso.py around the flow: the list of providers, and the login page of the
-- development stand-in with its form. The check of an address (pydantic's `EmailStr`) is a parameter.
use third_party_vendor_risk.Base.{
  ℕ, String, Bool, true, false, ◌||◌, not, Option, none, some, ◌==◌, string_eq, is_some,
  if◌then◌else◌,
}
use third_party_vendor_risk.Oidc.Dev.{Tokens, dev_client_id, issue_code}
use third_party_vendor_risk.Oidc.Choice.{Built, google, dev}

-- The entry of a provider: its id and whether it is the stand-in.
unfoldable pub list_providers : Option Built → Option (String × Bool)
list_providers none = none
list_providers (some google) = some ("google", false)
list_providers (some dev) = some ("google", true)

-- The fields that the page passes on.
pub record PageFields : Type 0 where
  pub redirect_uri : String
  pub state : String
  pub nonce : String
  pub code_challenge : String

pub data Page : Type 0 where
  not_found bad_request broken : Page
  form : PageFields → (error : Bool) → Page
  cancelled : (redirect_uri state : String) → Page
  granted : (redirect_uri code state : String) → Page

-- `_dev_provider`
abbrev pub is_stand_in : Option Built → Bool
is_stand_in (some dev) = true
is_stand_in _ = false

unfoldable pub dev_authorize :
    Option Built → (callback_url client_id code_challenge_method : String) → PageFields → Page
dev_authorize provider callback_url client_id code_challenge_method fields =
    if not (is_stand_in provider)
    then not_found
    else if not (client_id == dev_client_id) || not (code_challenge_method == "S256")
    then bad_request
    else if not (fields.redirect_uri == callback_url)
    then bad_request
    else form fields false

module _ (k : Tokens) (strip : String → String) (validate : String → Option String) where
  unfoldable pub dev_approve :
      (now : ℕ)
      → Option Built
      → (callback_url action email name : String) (email_verified : Option String) → PageFields
      → Page
  unfolding issue_code
  dev_approve now provider callback_url action email name email_verified fields =
      let cut = strip name in
      if not (is_stand_in provider)
      then not_found
      else if not (fields.redirect_uri == callback_url)
      then bad_request
      else if action == "cancel"
      then cancelled fields.redirect_uri fields.state
      else elim (validate (strip email)) [
        | none ↦ form fields true
        | some address ↦
            elim (issue_code k now address (if cut == "" then none else some cut)
              (is_some email_verified) fields.redirect_uri fields.nonce fields.code_challenge) [
                | none ↦ broken
                | some code ↦ granted fields.redirect_uri code fields.state
              ]
      ]
