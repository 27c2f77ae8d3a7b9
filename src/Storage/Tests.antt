-- ===== src/Storage/Tests.antt =====
-- Links of app/services/object_storage.py, signed and presented.
use text.Mathlib.TextLemmas.{nil≢cons, cons≢nil, tail-eq_of_cons-eq}
use third_party_vendor_risk.Base.{
  ℕ, zero, suc, ◌+◌, ◌≤◌, ◌≡◌, refl, ap, ◌↔◌, String, true, false, some, arith, string_eq,
}
use third_party_vendor_risk.Storage.{
  Link, check_key, is_key_from, size, in_limits, signature, signed_url, is_served,
}
use third_party_vendor_risk.Storage.Links.{has_no_newline, is_served_iff}

-- A number as so many ones.
abbrev show : ℕ → String
show zero = ""
show (suc n) = String.◌∷◌ "1" (show n)

abbrev mac : String → String
mac s = s

show_different : (m n : ℕ) → show m ≡ show n → m ≡ n
show_different zero zero e = refl
show_different zero (suc n) e = absurd (nil≢cons e)
show_different (suc m) zero e = absurd (cons≢nil e)
show_different (suc m) (suc n) e = ap suc (show_different m n (tail-eq_of_cons-eq e))

show_one_line : (n : ℕ) → has_no_newline (show n) ≡ true
unfolding has_no_newline
show_one_line zero = refl
show_one_line (suc n) = ground (arith, show_one_line n)

nested_key : check_key "exports/7/a.csv" ≡ true
unfolding check_key is_key_from size
nested_key = refl

parent_key : check_key "exports/../a.csv" ≡ false
unfolding check_key is_key_from size
parent_key = refl

link : Link
link = record {
  key = "a.csv";
  exp = 3;
  filename = "b";
  content_type = "text/csv";
  sig = signature mac show "a.csv" 3 "b" "text/csv";
}

signed : signed_url mac show 1 "a.csv" "b" "text/csv" 2 ≡ some link
unfolding link signed_url check_key is_key_from size
signed = refl

name_one_line : has_no_newline "b" ≡ true
unfolding has_no_newline
name_one_line = refl

is_served_iff_example : (is_served mac show 3 link ≡ true) ↔ (
    (in_limits link ≡ true)
    × (3 ≤ 1 + 2)
    × (link.key ≡ "a.csv")
    × (link.exp ≡ 1 + 2)
    × (link.filename ≡ "b")
    × (link.content_type ≡ "text/csv"))
unfolding link
is_served_iff_example =
    is_served_iff mac show show_different show_one_line 1 3 "a.csv" "b" "text/csv" 2 link link
      name_one_line name_one_line signed refl (λ e. e)
