-- ===== src/Profile.antt =====
-- app/services/profile_service.py: the display name, the photo and the recent sign-ins of a user.
-- Decoding and encoding an image, and the object store, are parameters.
pub mod Newest
pub mod History
pub mod Photos
mod Tests
use third_party_vendor_risk.Base.{
  ℕ, zero, suc, ◌*◌, String, Bool, true, false, ◌&&◌, ◌||◌, not, Option, none, some, List, [], ◌∷◌,
  ◌==◌, nat_eq, string_eq, ltb, any, keep_if, remove_if, update_if, map, length, if◌then◌else◌,
  Result, ok, err, validation, not_found,
}
use third_party_vendor_risk.Json.{take_chars}

-- The columns of a user that the profile changes.
pub record Profile : Type 0 where
  pub id : ℕ
  pub name : Option String
  pub avatar_key : Option String

pub record LoginEvent : Type 0 where
  pub id : ℕ
  pub user_id : ℕ
  pub method : String
  pub ip : Option String
  pub user_agent : Option String
  pub created_at : ℕ

-- `len(s)`
unfoldable pub text_length : String → ℕ
text_length String.[] = 0
text_length (String.◌∷◌ c s) = suc (text_length s)

-- `" ".join((name or "").split())` is `squeeze` of the text.
module _ (squeeze : String → String) where
  unfoldable pub update_name : Profile → Option String → Result Profile
  unfolding text_length
  update_name user name =
      let cleaned = squeeze (elim name [ none ↦ "" | some s ↦ s ]) in
      if ltb 200 (text_length cleaned)
      then err validation
      else ok (record user { name = if cleaned == "" then none else some cleaned })

-- An upload: its size, the sides that its header tells (none where it cannot be read in an allowed
-- format), and the square that it is encoded as, if that succeeds.
pub record Upload : Type 0 where
  pub size : ℕ
  pub sides : Option (ℕ × ℕ)
  pub encoded : Option String

unfoldable pub process_avatar : Upload → Result String
process_avatar upload =
    if upload.size == 0 || ltb 5242880 upload.size then err validation else elim upload.sides [
      | none ↦ err validation
      | some (width, height) ↦
          if ltb 40000000 (width * height)
          then err validation
          else elim upload.encoded [ none ↦ err validation | some image ↦ ok image ]
    ]

-- The objects of a store by key.
abbrev pub Objects : Type 0
Objects = List (String × String)

abbrev pub put_object : String → String → Objects → Objects
put_object key image objects = (key, image) ∷ remove_if (λ o. o.0 == key) objects

-- `_discard`; a delete that fails leaves the object.
unfoldable pub discard : (deletes : Bool) → Option String → Objects → Objects
discard deletes none objects = objects
discard deletes (some key) objects =
    if key == "" || not deletes then objects else remove_if (λ o. o.0 == key) objects

-- `set_avatar`, for the key made of the random token; `deletes` says whether the store can delete.
unfoldable pub set_avatar :
    (deletes : Bool) (key : String) → Profile → Upload → Objects → Result (Profile × Objects)
unfolding process_avatar discard
set_avatar deletes key user upload objects = elim (process_avatar upload) [
  | err e ↦ err e
  | ok image ↦ ok (
    record user { avatar_key = some key },
    discard deletes user.avatar_key (put_object key image objects),
  )
]

unfoldable pub remove_avatar : (deletes : Bool) → Profile → Objects → Profile × Objects
unfolding discard
remove_avatar deletes user objects =
    (record user { avatar_key = none }, discard deletes user.avatar_key objects)

abbrev pub find_object : String → Objects → Option String
find_object key [] = none
find_object key (o ∷ objects) = if o.0 == key then some o.1 else find_object key objects

unfoldable pub load_avatar : Profile → Objects → Result String
load_avatar user objects = elim user.avatar_key [
  | none ↦ err not_found
  | some key ↦
      if key == ""
      then err not_found
      else elim (find_object key objects) [ none ↦ err not_found | some image ↦ ok image ]
]

-- `(s or "")[:n] or None`
abbrev pub cut_text : ℕ → Option String → Option String
cut_text n none = none
cut_text n (some s) = let cut = take_chars n s in if cut == "" then none else some cut

-- `ORDER BY created_at DESC, id DESC`
abbrev pub is_newer : LoginEvent → LoginEvent → Bool
is_newer a b = ltb b.created_at a.created_at || (a.created_at == b.created_at && ltb b.id a.id)

unfoldable pub insert_event : LoginEvent → List LoginEvent → List LoginEvent
insert_event e [] = e ∷ []
insert_event e (f ∷ events) =
    let rest = f ∷ insert_event e events in if is_newer f e then rest else e ∷ f ∷ events

unfoldable pub newest_first : List LoginEvent → List LoginEvent
unfolding insert_event
newest_first [] = []
newest_first (e ∷ events) = insert_event e (newest_first events)

-- `LIMIT n`
unfoldable pub limit {ℓ} : {A : Type ℓ} → ℕ → List A → List A
limit zero xs = []
limit (suc n) [] = []
limit (suc n) (x ∷ xs) = x ∷ limit n xs

abbrev pub of_user : ℕ → LoginEvent → Bool
of_user user_id e = e.user_id == user_id

-- `recent_logins`
unfoldable pub recent_logins : (user_id n : ℕ) → List LoginEvent → List LoginEvent
unfolding newest_first limit
recent_logins user_id n events = limit n (newest_first (keep_if (of_user user_id) events))

abbrev pub is_among : LoginEvent → List LoginEvent → Bool
is_among e events = any (λ k. k.id == e.id) events

-- The rows that the DELETE leaves.
unfoldable pub prune : (user_id : ℕ) → List LoginEvent → List LoginEvent
unfolding recent_logins
prune user_id events =
    let keep = recent_logins user_id 20 events in
    remove_if (λ e. of_user user_id e && not (is_among e keep)) events

-- `record_login`, with the id of the new row. `fails` says whether a statement raises, and the
-- session is rolled back.
unfoldable pub record_login :
    (id now : ℕ) (fails : Bool) (user_id : ℕ) (method : String) (ip user_agent : Option String)
    → List LoginEvent
    → List LoginEvent
unfolding prune
record_login id now fails user_id method ip user_agent events =
    let event : LoginEvent = record {
      id = id;
      user_id = user_id;
      method = take_chars 32 method;
      ip = cut_text 45 ip;
      user_agent = cut_text 300 user_agent;
      created_at = now;
    } in
    if fails then events else prune user_id (event ∷ events)
