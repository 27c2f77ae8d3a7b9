-- ===== src/Profile/Tests.antt =====
-- A recorded sign-in and a photo.
use third_party_vendor_risk.Base.{
  ◌≡◌, refl, true, false, none, some, [], ◌∷◌, ◌==◌, nat_eq, string_eq, any, arith, ok,
}
use third_party_vendor_risk.Profile.{
  Profile, Upload, LoginEvent, record_login, set_avatar, process_avatar, discard,
}
use third_party_vendor_risk.Profile.History.{IsHistory, record_login-IsHistory}

abbrev before : LoginEvent
before = record {
  id = 1;
  user_id = 7;
  method = "password";
  ip = none;
  user_agent = none;
  created_at = 5;
}

one_row : IsHistory 2 6 (before ∷ [])
one_row = record {
  distinct = λ i. ground arith;
  older = ((omega arith, omega arith), tt);
  capped = λ u. ground arith;
}

record_login-IsHistory_example :
    IsHistory 3 9 (record_login 2 6 false 7 "google" (some "10.0.0.1") none (before ∷ []))
    × (false ≡ false
        → any
            (λ e. e.id == 2)
            (record_login 2 6 false 7 "google" (some "10.0.0.1") none (before ∷ []))
          ≡ true)
record_login-IsHistory_example =
    record_login-IsHistory 2 6 9 false 7 "google" (some "10.0.0.1") none (before ∷ []) (omega arith)
      one_row

abbrev user : Profile
user = record { id = 7; name = none; avatar_key = some "a" }

abbrev upload : Upload
upload = record { size = 100; sides = some (640, 480); encoded = some "webp" }

abbrev changed : Profile
changed = record user { avatar_key = some "b" }

set_test : set_avatar true "b" user upload (("a", "old") ∷ []) ≡ ok (changed, ("b", "webp") ∷ [])
unfolding set_avatar process_avatar discard
set_test = refl
