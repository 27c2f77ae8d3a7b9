-- ===== src/Profile/Photos.antt =====
-- `set_avatar`, `remove_avatar` and `load_avatar` of app/services/profile_service.py.
use third_party_vendor_risk.Base.{
  ◌≡◌, refl, sym, ◌∙◌, ap, String, Bool, true, false, Option, none, some, [], ◌∷◌, ◌==◌, nat_eq,
  string_eq, str_eq_iff, str_eq_refl, if◌then◌else◌, remove_if, arith, inl, inr, Bool-cases, ok,
  Result-cases,
}
use third_party_vendor_risk.Profile.{
  Profile, Upload, Objects, put_object, find_object, discard, process_avatar, set_avatar,
  load_avatar,
}

find_object-remove_if :
    (key gone : String) (objects : Objects)
    → find_object key (remove_if (λ o. o.0 == gone) objects)
      ≡ (if key == gone then none else find_object key objects)
find_object-remove_if key gone [] = ground arith
find_object-remove_if key gone (o ∷ objects) = ground (
  arith,
  find_object-remove_if key gone objects,
  str_eq_iff key gone,
  str_eq_iff o.0 key,
  str_eq_iff o.0 gone,
)

find_object-put :
    (other key image : String) (objects : Objects)
    → find_object other (put_object key image objects)
      ≡ (if other == key then some image else find_object other objects)
find_object-put other key image objects = elim (Bool-cases (other == key)) [
  | inl same ↦ ground (arith, str_eq_iff other key, str_eq_iff key other)
  | inr differs ↦
      ground
        (arith, str_eq_iff other key, str_eq_iff key other, find_object-remove_if other key objects)
]

find_object-discard :
    (deletes : Bool) (other : String) (previous : Option String) (objects : Objects)
    → (previous ≡ some other → deletes ≡ false)
    → find_object other (discard deletes previous objects) ≡ find_object other objects
unfolding discard
find_object-discard deletes other none objects spared = refl
find_object-discard deletes other (some key) objects spared = elim (Bool-cases (other == key)) [
  | inl same ↦
      let stays = spared (ap some (sym ((str_eq_iff other key).0 same))) in ground (arith, stays)
  | inr differs ↦ ground (arith, find_object-remove_if other key objects)
]

-- A photo that is set under a new key is the one that is loaded; when the store can delete, the
-- photo before it is no longer there, and every other object is as it was.
pub set_avatar-load_avatar :
    (deletes : Bool) (key : String) (user after : Profile) (upload : Upload)
    (objects stored : Objects)
    → set_avatar deletes key user upload objects ≡ ok (after, stored)
    → (key == "") ≡ false
    → ((old : String) → user.avatar_key ≡ some old → (old == key) ≡ false)
    → (load_avatar after stored ≡ process_avatar upload)
      × ((old : String)
          → user.avatar_key ≡ some old
          → (old == "") ≡ false
          → deletes ≡ true
          → find_object old stored ≡ none)
      × ((other : String)
          → (other == key) ≡ false
          → (user.avatar_key ≡ some other → deletes ≡ false)
          → find_object other stored ≡ find_object other objects)
unfolding set_avatar load_avatar
set_avatar-load_avatar deletes key user after upload objects stored e named fresh =
    elim (Result-cases (process_avatar upload)) [
      | inl (raised, failed) ↦ absurd (ground arith)
      | inr (image, made) ↦
          let kept = put_object key image objects in
          let user_row : after.avatar_key ≡ some key = ground arith in
          let rows : stored ≡ discard deletes user.avatar_key kept = ground arith in
          let loaded : find_object key stored ≡ some image =
            ap (find_object key) rows
            ∙ find_object-discard deletes key user.avatar_key kept
                (λ old. absurd (let other = fresh key old in ground (arith, str_eq_refl key)))
            ∙ find_object-put key key image objects
            ∙ (ground (arith, str_eq_refl key)) in
          (
            rw (load_avatar, user_row, named, loaded, made) refl,
            λ old had text can.
                let gone : find_object old (remove_if (λ o. o.0 == old) kept) ≡ none =
                  find_object-remove_if old old kept ∙ (ground (arith, str_eq_refl old)) in
                rw (rows, had, discard, text, can) gone,
            λ other differs spared.
                ap (find_object other) rows
                ∙ find_object-discard deletes other user.avatar_key kept spared
                ∙ find_object-put other key image objects
                ∙ (rw differs refl),
          )
    ]
