-- ===== src/Vendors/Names.antt =====
-- Names and ids of vendors under the operations of app/services/vendor_service.py; the names are
-- subject to a constraint in app/models/vendor.py.
use third_party_vendor_risk.Base.{
  ℕ, suc, ◌+◌, ◌≤◌, ◌<◌, ◌≡◌, refl, sym, ◌∙◌, ap, subst, String, Bool, true, false, ◌&&◌, some,
  List, [], ◌∷◌, ◌==◌, nat_eq, nat_beq_iff, string_eq, str_eq_iff, any, any-iff_count, count_if,
  count_if-update_le, count_if-remove_le, update_if-none, All, All-update, count_if_mono,
  find_first, find_first_sound, update_if, remove_if, arith, inl, inr, Bool-cases, Option-cases, ok,
}
use third_party_vendor_risk.Tenancy.{Db}
use third_party_vendor_risk.Ingest.{Vendor, is_named}
use third_party_vendor_risk.Vendors.{
  VendorTable, VendorData, VendorChanges, new_vendor, is_vendor, is_clash, changed, get_vendor,
  create_vendor, update_vendor, delete_vendor,
}

-- Names are unique in an organization, ids are unique, and none is still to come.
pub record IsValid (t : VendorTable) : Type 0 where
  pub names : (org_id : ℕ) (name : String) → count_if (is_named org_id name) t.vendors ≤ 1
  pub ids : (id : ℕ) → count_if (λ v. v.id == id) t.vendors ≤ 1
  pub fresh : All (λ v. v.id < t.next_id) t.vendors

fresh-none :
    (vs : List Vendor) (next : ℕ) → All (λ v. v.id < next) vs → count_if (λ v. v.id == next) vs ≡ 0
fresh-none [] next below = refl
fresh-none (v ∷ vs) next below =
    ground (arith, nat_beq_iff v.id next, fresh-none vs next below.1, below.0)

fresh-later :
    (vs : List Vendor) (next : ℕ) → All (λ v. v.id < next) vs → All (λ v. v.id < suc next) vs
fresh-later [] next below = tt
fresh-later (v ∷ vs) next below = (omega (arith, below.0), fresh-later vs next below.1)

-- A row with a new id and a name that is not taken.
pub added-IsValid :
    (v : Vendor) (t : VendorTable)
    → v.id ≡ t.next_id
    → count_if (is_named v.org_id v.name) t.vendors ≡ 0
    → IsValid t
    → IsValid (record { vendors = v ∷ t.vendors; next_id = suc t.next_id })
added-IsValid v t own free valid = record {
  names = λ org_id name.
      let there = valid.names org_id name in
      elim (Bool-cases (is_named org_id name v)) [
        | inr other ↦ ground (arith, there)
        | inl same ↦
            let org : v.org_id ≡ org_id = (nat_beq_iff v.org_id org_id).0 (ground arith) in
            let alike : v.name ≡ name = (str_eq_iff v.name name).0 (ground arith) in
            let none_there : count_if (is_named org_id name) t.vendors ≡ 0 =
              ap (λ o. count_if (is_named o name) t.vendors) (sym org)
              ∙ ap (λ n. count_if (is_named v.org_id n) t.vendors) (sym alike)
              ∙ free in
            ground (arith, none_there)
      ];
  ids = λ id. ground (
    arith,
    valid.ids id,
    own,
    fresh-none t.vendors t.next_id valid.fresh,
    nat_beq_iff v.id id,
    nat_beq_iff t.next_id id,
  );
  fresh = (omega (arith, own), fresh-later t.vendors t.next_id valid.fresh);
}

pub create_vendor-IsValid :
    (strip : String → String) (db : Db) (t after : VendorTable) (org_id : ℕ) (given : VendorData)
    (v : Vendor)
    → create_vendor strip db t org_id given ≡ ok (v, after)
    → IsValid t
    → IsValid after
unfolding create_vendor
create_vendor-IsValid strip db t after org_id given v e valid =
    let new = new_vendor t.next_id org_id (record given { name = strip given.name }) in
    let free : any (is_named org_id (strip given.name)) t.vendors ≡ false = ground arith in
    let none_there : count_if (is_named org_id (strip given.name)) t.vendors ≡ 0 =
      ground (arith, any-iff_count (is_named org_id (strip given.name)) t.vendors, free) in
    let same : after ≡ (record { vendors = new ∷ t.vendors; next_id = suc t.next_id }) =
      ground arith in
    subst IsValid (sym same) (added-IsValid new t refl none_there valid)

All-remove {κ} :
    (P : Vendor → Type κ) (q : Vendor → Bool) (vs : List Vendor) → All P vs → All P (remove_if q vs)
All-remove P q [] a = tt
All-remove P q (v ∷ vs) a = elim (Bool-cases (q v)) [
  | inl hit ↦ rw hit (All-remove P q vs a.1)
  | inr miss ↦ rw miss (a.0, All-remove P q vs a.1)
]

pub delete_vendor-IsValid :
    (t after : VendorTable) (org_id vendor_id : ℕ)
    → delete_vendor t org_id vendor_id ≡ ok after
    → IsValid t
    → IsValid after
unfolding delete_vendor get_vendor
delete_vendor-IsValid t after org_id vendor_id e valid =
    let gone = is_vendor org_id vendor_id in
    let same : after ≡ (record t { vendors = remove_if gone t.vendors }) = ground arith in
    subst IsValid (sym same) (record {
      names =
          λ o n. omega (arith, valid.names o n, count_if-remove_le (is_named o n) gone t.vendors);
      ids = λ id. omega (arith, valid.ids id, count_if-remove_le (λ v. v.id == id) gone t.vendors);
      fresh = All-remove (λ v. v.id < t.next_id) gone t.vendors valid.fresh;
    })

count_if-update_add :
    (p q : Vendor → Bool) (f : Vendor → Vendor) (vs : List Vendor)
    → count_if p (update_if q f vs) ≤ count_if p vs + count_if q vs
count_if-update_add p q f [] = omega arith
count_if-update_add p q f (v ∷ vs) = ground (arith, count_if-update_add p q f vs)

-- An update of one row, which was counted.
count_if-update_counted :
    (p q : Vendor → Bool) (f : Vendor → Vendor) (vs : List Vendor) (w : Vendor)
    → find_first q vs ≡ some w
    → p w ≡ true
    → count_if q vs ≤ 1
    → count_if p (update_if q f vs) ≤ count_if p vs
count_if-update_counted p q f [] w found counted once = absurd (cc)
count_if-update_counted p q f (v ∷ vs) w found counted once = elim (Bool-cases (q v)) [
  | inl hit ↦
      let same : v ≡ w = ground arith in
      let here : p v ≡ true = ap p same ∙ counted in
      let rest : update_if q f vs ≡ vs = update_if-none q f vs (ground arith) in
      ground (arith, rest, here)
  | inr miss ↦
      ground (arith, count_if-update_counted p q f vs w (rw miss at found) counted (ground arith))
]

-- What the new name does to a count of a name.
renamed-count :
    (strip : String → String) (t : VendorTable) (org_id vendor_id o : ℕ) (n : String)
    (c : VendorChanges) (w : Vendor)
    → IsValid t
    → find_first (is_vendor org_id vendor_id) t.vendors ≡ some w
    → is_clash strip t org_id w c.name ≡ false
    → count_if (is_named o n) (update_if (is_vendor org_id vendor_id) (changed strip c) t.vendors)
      ≤ 1
renamed-count strip t org_id vendor_id o n c w valid found free =
    let q = is_vendor org_id vendor_id in
    let p = is_named o n in
    let f = changed strip c in
    let once : count_if q t.vendors ≤ 1 = omega (
      arith,
      valid.ids vendor_id,
      count_if_mono q (λ v. v.id == vendor_id) t.vendors (λ v hit. ground arith),
    ) in
    let own : w.org_id ≡ org_id =
      (nat_beq_iff w.org_id org_id).0
        (let hit = find_first_sound q t.vendors w found in ground arith) in
    elim (Option-cases c.name) [
      | inl kept ↦ omega (
        arith,
        valid.names o n,
        count_if-update_le p q f t.vendors (λ v hit counted. ground (arith, kept)),
      )
      | inr (m, given) ↦ elim (Bool-cases (o == org_id && strip m == n)) [
        | inr other ↦ omega (
          arith,
          valid.names o n,
          count_if-update_le p q f t.vendors (λ v hit counted. absurd (
              ground (
                arith,
                given,
                nat_beq_iff v.org_id org_id,
                nat_beq_iff o org_id,
                nat_beq_iff v.org_id o,
              ))),
        )
        | inl this ↦ elim (Bool-cases (strip m == w.name)) [
          | inl same ↦
              let counted : p w ≡ true = ground (
                arith,
                own,
                nat_beq_iff w.org_id o,
                nat_beq_iff o org_id,
                str_eq_iff (strip m) w.name,
                str_eq_iff (strip m) n,
                str_eq_iff w.name n,
              ) in
              omega (
                arith,
                valid.names o n,
                count_if-update_counted p q f t.vendors w found counted once,
              )
          | inr moved ↦
              let untaken : any (is_named org_id (strip m)) t.vendors ≡ false =
                ground (arith, given) in
              let org : o ≡ org_id = (nat_beq_iff o org_id).0 (ground arith) in
              let name : strip m ≡ n = (str_eq_iff (strip m) n).0 (ground arith) in
              let none_here : count_if (is_named org_id (strip m)) t.vendors ≡ 0 =
                ground (arith, any-iff_count (is_named org_id (strip m)) t.vendors, untaken) in
              let none_there : count_if p t.vendors ≡ 0 =
                ap (λ i. count_if (is_named i n) t.vendors) org
                ∙ ap (λ k. count_if (is_named org_id k) t.vendors) (sym name)
                ∙ none_here in
              omega (arith, none_there, once, count_if-update_add p q f t.vendors)
        ]
      ]
    ]

pub update_vendor-IsValid :
    (strip : String → String) (t after : VendorTable) (org_id vendor_id : ℕ) (c : VendorChanges)
    (v : Vendor)
    → update_vendor strip t org_id vendor_id c ≡ ok (v, after)
    → IsValid t
    → IsValid after
unfolding update_vendor get_vendor
update_vendor-IsValid strip t after org_id vendor_id c v e valid =
    let q = is_vendor org_id vendor_id in
    elim (Option-cases (find_first q t.vendors)) [
      | inl absent ↦ absurd (ground arith)
      | inr (w, found) ↦
          let free : is_clash strip t org_id w c.name ≡ false = ground arith in
          let same : after ≡ (record t { vendors = update_if q (changed strip c) t.vendors }) =
            ground arith in
          subst IsValid (sym same) (record {
            names = λ o n. renamed-count strip t org_id vendor_id o n c w valid found free;
            ids = λ id. omega (
              arith,
              valid.ids id,
              count_if-update_le (λ v. v.id == id) q (changed strip c) t.vendors
                  (λ v hit counted. counted),
            );
            fresh =
                All-update (λ v. v.id < t.next_id) q (changed strip c) t.vendors
                  (λ v hit below. below) valid.fresh;
          })
    ]
