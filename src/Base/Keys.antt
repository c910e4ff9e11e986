-- ===== src/Base/Keys.antt =====
-- What a dict asks of its keys: a Boolean test that decides equality.
use Prim.Native.Nat.{ℕ}
use Prim.Native.String.{String}
use mathlib.Core.Path.{◌≡◌, refl}
use mathlib.Core.Logic.{◌↔◌, ◌≢◌}
use mathlib.Core.Bool.{Bool, true, false}
use native.Mathlib.Omega.{arith}
use text.Mathlib.Text.{◌==◌ as str_eq}
use text.Mathlib.TextEquality.{eq_iff}
use technicolor_haze_prism.Base.Tests.{nat_eq, nat_eq_iff}

pub record Key {ℓ} (K : Type ℓ) : Type ℓ where
  pub same : K → K → Bool
  pub same_iff : (a b : K) → (same a b ≡ true) ↔ (a ≡ b)

infix 50 ◌==◌
abbrev pub ◌==◌ {ℓ} : {K : Type ℓ} ⦃k : Key K⦄ → K → K → Bool
◌==◌ ⦃k⦄ = k.same

instance abbrev pub nat_key : Key ℕ
nat_key = record { same = nat_eq; same_iff = nat_eq_iff }

instance abbrev pub text_key : Key String
text_key = record { same = str_eq; same_iff = eq_iff }

module _ {ℓ} {K : Type ℓ} ⦃e : Key K⦄ where
  pub same_refl : (a : K) → (a == a) ≡ true
  same_refl a = (e.same_iff a a).1 refl

  pub same-ne : (a b : K) → a ≢ b → (a == b) ≡ false
  same-ne a b h = ground (arith, e.same_iff a b)

  pub eq_of_same : (a b : K) → (a == b) ≡ true → a ≡ b
  eq_of_same a b = (e.same_iff a b).0
