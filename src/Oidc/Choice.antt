-- ===== src/Oidc/Choice.antt =====
-- `build_provider` of app/services/oidc.py: which provider the settings give.
use third_party_vendor_risk.Base.{
  String, Bool, false, ◌&&◌, not, Option, none, some, ◌==◌, nat_eq, string_eq, if◌then◌else◌,
}

-- What `build_provider` reads of the settings, and which provider it makes.
pub record ProviderSettings : Type 0 where
  pub google_client_id : Option String
  pub google_client_secret : Option String
  pub oidc_dev_provider : Bool
  pub is_production : Bool

pub data Built : Type 0 where
  google dev : Built

abbrev pub is_set : Option String → Bool
is_set none = false
is_set (some s) = not (s == "")

unfoldable pub build_provider : ProviderSettings → Option Built
build_provider settings =
    if is_set settings.google_client_id && is_set settings.google_client_secret
    then some google
    else if settings.oidc_dev_provider && not settings.is_production
    then some dev
    else none
