-- ===== src/Base/Equality.antt =====
-- Python's `==` at the types that the program compares.
use Prim.Native.Nat.{ℕ}
use Prim.Native.String.{String}
use mathlib.Core.Path.{◌≡◌, refl}
use mathlib.Core.Logic.{◌↔◌}
use mathlib.Core.Bool.{Bool, true, false}
use mathlib.Core.Option.{Option, none, some}
use text.Mathlib.Text.{◌==◌ as str_eq}
use text.Mathlib.TextEquality.{eq_iff}
use third_party_vendor_risk.Base.Tests.{nat_beq, nat_beq_iff}

-- A type whose values the program compares by `==`, with a test that decides its equality.
pub record Comparable {ℓ} (T : Type ℓ) : Type ℓ where
  pub same : T → T → Bool
  pub exact : (x y : T) → (same x y ≡ true) ↔ (x ≡ y)

abbrev pub option_beq {ℓ} : {A : Type ℓ} → (A → A → Bool) → Option A → Option A → Bool
option_beq f none none = true
option_beq f none (some _) = false
option_beq f (some _) none = false
option_beq f (some a) (some b) = f a b

pub str_eq_iff : (s t : String) → (str_eq s t ≡ true) ↔ (s ≡ t)
str_eq_iff s t = eq_iff s t

pub str_eq_refl : (s : String) → str_eq s s ≡ true
str_eq_refl s = (eq_iff s s).1 refl

-- Ids and counts.
instance abbrev pub nat_eq : Comparable ℕ
nat_eq = record { same = nat_beq; exact = nat_beq_iff }

-- Names, tokens and keys.
instance abbrev pub string_eq : Comparable String
string_eq = record { same = str_eq; exact = str_eq_iff }

module _ {ℓ} {T : Type ℓ} ⦃c : Comparable T⦄ where
  infix 50 ◌==◌
  abbrev pub ◌==◌ : T → T → Bool
  x == y = c.same x y
