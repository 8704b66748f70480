-- ===== src/Common/Eq.antt =====
-- Decidable equality as an interface, for the keys of a map and for `===` on texts.
use kei_transaction.Common.Tests.{
  ℕ, ◌≡◌, refl, ◌↔◌, Bool, true, false, ◌&&◌, List, [], ◌∷◌, arith, eqb,
}

infix 50 ◌==◌
-- A test of equality that is right on both answers.
pub record Eq {ℓ} (Key : Type ℓ) : Type ℓ where
  pub beq : (a b : Key) → Bool
  pub beq_iff : (x y : Key) → (beq x y ≡ true) ↔ (x ≡ y)

abbrev pub ◌==◌ {ℓ} : {Key : Type ℓ} ⦃test : Eq Key⦄ → Key → Key → Bool
◌==◌ ⦃test⦄ x y = test.beq x y

unfoldable pub list_beq : List ℕ → List ℕ → Bool
list_beq [] [] = true
list_beq [] (y ∷ ys) = false
list_beq (x ∷ xs) [] = false
list_beq (x ∷ xs) (y ∷ ys) = eqb x y && list_beq xs ys

list_beq_sound : (xs ys : List ℕ) → list_beq xs ys ≡ true → xs ≡ ys
unfolding list_beq
list_beq_sound [] [] h = refl
list_beq_sound [] (y ∷ ys) h = ground arith
list_beq_sound (x ∷ xs) [] h = ground arith
list_beq_sound (x ∷ xs) (y ∷ ys) h = ground (arith, list_beq_sound xs ys)

list_beq_refl : (xs : List ℕ) → list_beq xs xs ≡ true
unfolding list_beq
list_beq_refl [] = refl
list_beq_refl (x ∷ xs) = ground (arith, list_beq_refl xs)

pub list_beq_iff : (xs ys : List ℕ) → (list_beq xs ys ≡ true) ↔ (xs ≡ ys)
list_beq_iff xs ys = (list_beq_sound xs ys, λ e. ground (arith, list_beq_refl xs))

instance abbrev pub text_eq : Eq (List ℕ)
text_eq = record { beq = list_beq; beq_iff = list_beq_iff }

module _ {ℓ} {A : Type ℓ} ⦃e : Eq A⦄ where
  unfoldable pub pair_beq : A × A → A × A → Bool
  pair_beq (a, b) (c, d) = a == c && b == d

  pub pair_beq_iff : (p q : A × A) → (pair_beq p q ≡ true) ↔ (p ≡ q)
  unfolding pair_beq
  pair_beq_iff (a, b) (c, d) = ground (arith, e.beq_iff a c, e.beq_iff b d)

  instance abbrev pub pair_eq : Eq (A × A)
  pair_eq = record { beq = pair_beq; beq_iff = pair_beq_iff }

  pub ==_refl : (a : A) → (a == a) ≡ true
  ==_refl a = (e.beq_iff a a).1 refl

  pub ==_ne : (a b : A) → (a ≡ b → ⊥) → (a == b) ≡ false
  ==_ne a b h = ground (arith, e.beq_iff a b)
