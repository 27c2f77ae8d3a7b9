-- ===== src/Storage/Links.antt =====
-- The links of app/services/object_storage.py: the lines of a signed message, and requests with a
-- signature.
use Prim.Native.Char.{code}
use text.Mathlib.TextLemmas.{nil-append, cons-append, head-eq_of_cons-eq, tail-eq_of_cons-eq}
use third_party_vendor_risk.Base.{
  ℕ, ◌+◌, ◌≤◌, ◌<◌, ◌≡◌, refl, sym, ◌∙◌, ap, ◌↔◌, String, Bool, true, false, ◌&&◌, not, some, ◌==◌,
  string_eq, str_eq_iff, nat_beq, arith,
}
use third_party_vendor_risk.Storage.{
  is_key_from, check_key, Link, line, in_limits, message, signature, signed_url, verify, is_served,
}

unfoldable pub has_no_newline : String → Bool
has_no_newline String.[] = true
has_no_newline (String.◌∷◌ c s) = let rest = has_no_newline s in not (nat_beq (code c) 10) && rest

is_key_from-newline :
    (start : Bool) (s : String) → is_key_from start s ≡ true → has_no_newline s ≡ true
unfolding is_key_from has_no_newline
is_key_from-newline start String.[] h = refl
is_key_from-newline true (String.◌∷◌ c s) h = ground (arith, is_key_from-newline false s)
is_key_from-newline false (String.◌∷◌ c s) h =
    ground (arith, is_key_from-newline false s, is_key_from-newline true s)

-- The first line of a text ends where it must.
line_inj :
    (a b x y : String)
    → has_no_newline a ≡ true
    → has_no_newline b ≡ true
    → line a x ≡ line b y
    → (a ≡ b) × (x ≡ y)
unfolding has_no_newline
line_inj String.[] String.[] x y p q e = (
  refl,
  tail-eq_of_cons-eq (sym (nil-append (String.◌∷◌ "\n" x)) ∙ e ∙ nil-append (String.◌∷◌ "\n" y)),
)
line_inj String.[] (String.◌∷◌ d b) x y p q e =
    let same =
      head-eq_of_cons-eq
        (sym (nil-append (String.◌∷◌ "\n" x)) ∙ e ∙ cons-append d b (String.◌∷◌ "\n" y)) in
    let coded : 10 ≡ code d = ap code same in absurd (ground arith)
line_inj (String.◌∷◌ c a) String.[] x y p q e =
    let same =
      head-eq_of_cons-eq
        (sym (cons-append c a (String.◌∷◌ "\n" x)) ∙ e ∙ nil-append (String.◌∷◌ "\n" y)) in
    let coded : code c ≡ 10 = ap code same in absurd (ground arith)
line_inj (String.◌∷◌ c a) (String.◌∷◌ d b) x y p q e =
    let whole =
      sym (cons-append c a (String.◌∷◌ "\n" x)) ∙ e ∙ cons-append d b (String.◌∷◌ "\n" y) in
    let same = head-eq_of_cons-eq whole in
    let (rest, after) = line_inj a b x y (ground arith) (ground arith) (tail-eq_of_cons-eq whole) in
    (ap (λ k. String.◌∷◌ k a) same ∙ ap (λ s. String.◌∷◌ d s) rest, after)

check_key-newline : (key : String) → check_key key ≡ true → has_no_newline key ≡ true
unfolding check_key
check_key-newline key h = is_key_from-newline true key (ground arith)

-- The keyed hash tells the two messages apart.
abbrev pub NoCollision : (String → String) → String → String → Type 0
NoCollision mac m n = mac m ≡ mac n → m ≡ n

module _ (mac : String → String) (show : ℕ → String)
    (different : (m n : ℕ) → show m ≡ show n → m ≡ n)
    (one_line : (n : ℕ) → has_no_newline (show n) ≡ true) where
  -- A signature is that of one file.
  signature_inj :
      (key key2 filename filename2 content_type content_type2 : String) (exp exp2 : ℕ)
      → check_key key ≡ true
      → check_key key2 ≡ true
      → has_no_newline filename ≡ true
      → has_no_newline filename2 ≡ true
      → NoCollision mac
          (message mac show key exp filename content_type)
          (message mac show key2 exp2 filename2 content_type2)
      → signature mac show key exp filename content_type
        ≡ signature mac show key2 exp2 filename2 content_type2
      → (key ≡ key2) × (exp ≡ exp2) × (filename ≡ filename2) × (content_type ≡ content_type2)
  unfolding signature
  signature_inj key key2 filename filename2 content_type content_type2 exp exp2 k k2 f f2 told_apart
        e =
      let whole = told_apart e in
      let (keys, rest) =
        line_inj key key2 (line (show exp) (line filename content_type))
          (line (show exp2) (line filename2 content_type2)) (check_key-newline key k)
          (check_key-newline key2 k2) whole in
      let (exps, names) =
        line_inj (show exp) (show exp2) (line filename content_type) (line filename2 content_type2)
          (one_line exp) (one_line exp2) rest in
      let (files, types) = line_inj filename filename2 content_type content_type2 f f2 names in
      (keys, different exp exp2 exps, files, types)

-- A signed link opens its file until it expires, and cannot be turned into another link: when
-- `signed_url` gives a link for a file name of one line, and a request presents the signature of
-- this link with any key, time, file name of one line and content type, it is served exactly if
-- these are the link's own, they are within the limits of the query, and the time of the request is
-- not after the link's end. The keyed hash is taken to tell the two messages apart, and numbers to
-- have different texts, each of one line.
pub is_served_iff :
    (mac : String → String) (show : ℕ → String)
    → ((m n : ℕ) → show m ≡ show n → m ≡ n)
    → ((n : ℕ) → has_no_newline (show n) ≡ true)
    → (now later : ℕ) (key filename content_type : String) (expires_in : ℕ) (link presented : Link)
    → has_no_newline filename ≡ true
    → has_no_newline presented.filename ≡ true
    → signed_url mac show now key filename content_type expires_in ≡ some link
    → presented.sig ≡ link.sig
    → NoCollision mac
        (message mac show presented.key presented.exp presented.filename presented.content_type)
        (message mac show key (now + expires_in) filename content_type)
    → (is_served mac show later presented ≡ true) ↔ (
        (in_limits presented ≡ true)
        × (later ≤ now + expires_in)
        × (presented.key ≡ key)
        × (presented.exp ≡ now + expires_in)
        × (presented.filename ≡ filename)
        × (presented.content_type ≡ content_type))
unfolding signed_url is_served verify
is_served_iff mac show different one_line now later key filename content_type expires_in link
      presented f f2 given same told_apart =
    let valid : check_key key ≡ true = ground arith in
    let signed : link.sig ≡ signature mac show key (now + expires_in) filename content_type =
      ground arith in
    (
      λ served.
          let checked : check_key presented.key ≡ true = ground arith in
          let matched : (presented.sig
                == signature mac show presented.key presented.exp presented.filename
                    presented.content_type)
              ≡ true =
            ground arith in
          let equal =
            (str_eq_iff presented.sig (
                signature mac show presented.key presented.exp presented.filename
                  presented.content_type)).0
              matched in
          let in_time : presented.exp < later → ⊥ = ground arith in
          let (keys, exps, files, types) =
            signature_inj mac show different one_line presented.key key presented.filename filename
              presented.content_type content_type presented.exp (now + expires_in) checked valid f2
              f told_apart (sym equal ∙ same ∙ signed) in
          (ground arith, omega (arith, in_time, exps), keys, exps, files, types),
      λ own.
          let (fits, in_time, keys, exps, files, types) = own in
          let again : presented.sig
              ≡ signature mac show presented.key presented.exp presented.filename
                  presented.content_type =
            same ∙ signed ∙ sym (rw (keys, exps, files, types) refl) in
          let matched =
            (str_eq_iff presented.sig (
                signature mac show presented.key presented.exp presented.filename
                  presented.content_type)).1
              again in
          let not_late : presented.exp < later → ⊥ = omega (arith, in_time, exps) in
          let checked : check_key presented.key ≡ true = ap check_key keys ∙ valid in
          ground (arith, fits, matched, not_late, checked),
    )
