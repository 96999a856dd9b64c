-- ===== src/Prelude/Elements.antt =====
-- What holds of every element of a list, and the elements at an index, as a list is written.
use usbq_core.Prelude.Lists.{get_elem?, set, take}
use Prim.Native.Nat.{ℕ, zero, suc, ◌<◌}
use mathlib.Core.Path.{◌≡◌, ap, refl, subst, sym, ◌∙◌}
use mathlib.Core.Option.{some}
use mathlib.Core.Logic.{inl, inr, ◌⊎◌}
use mathlib.Core.List.{List, [], ◌∷◌, map}
use native.Mathlib.Omega.{arith}

abbrev pub Every : {A : Type 0} → (A → Type 0) → List A → Type 0
Every P [] = Unit {0}
Every P (x ∷ xs) = P x × Every P xs

abbrev pub IsIn : {A : Type 0} → A → List A → Type 0
IsIn x [] = ⊥
IsIn x (y ∷ xs) = (y ≡ x) ⊎ IsIn x xs

module _ {A : Type 0} (P : A → Type 0) where
  pub Every-IsIn : (x : A) (xs : List A) → Every P xs → IsIn x xs → P x
  Every-IsIn x [] a m = absurd m
  Every-IsIn x (y ∷ xs) (p, a) m = elim m [
    | inl same ↦ subst P same p
    | inr later ↦ Every-IsIn x xs a later
  ]

  pub Every-set :
      (n : ℕ) (xs : List A) (i : ℕ) (v : A)
      → P v
      → Every P (take n xs)
      → Every P (take n (set xs i v))
  Every-set zero xs i v h a = tt
  Every-set (suc n) [] i v h a = tt
  Every-set (suc n) (x ∷ xs) zero v h (_, a) = (h, a)
  Every-set (suc n) (x ∷ xs) (suc i) v h (p, a) = (p, Every-set n xs i v h a)

  pub Every-get_elem? :
      (n : ℕ) (xs : List A) (i : ℕ) (v : A)
      → i < n
      → get_elem? xs i ≡ some v
      → Every P (take n xs)
      → P v
  Every-get_elem? zero xs i v h e a = absurd (omega arith)
  Every-get_elem? (suc n) [] i v h e a = cc
  Every-get_elem? (suc n) (x ∷ xs) zero v h e (p, a) = let same : x ≡ v = cc in subst P same p
  Every-get_elem? (suc n) (x ∷ xs) (suc i) v h e (p, a) = Every-get_elem? n xs i v (omega arith) e a

  pub Every-take : (n : ℕ) (xs : List A) → Every P xs → Every P (take n xs)
  Every-take zero xs a = tt
  Every-take (suc n) [] a = tt
  Every-take (suc n) (x ∷ xs) (p, a) = (p, Every-take n xs a)

module _ {A B : Type 0} (f : A → B) where
  pub map-set :
      (xs : List A) (i : ℕ) (x y : A)
      → get_elem? xs i ≡ some x
      → f y ≡ f x
      → map f (set xs i y) ≡ map f xs
  map-set [] i x y e h = refl
  map-set (z ∷ xs) zero x y e h =
      let same : z ≡ x = cc in ap (λ b. b ∷ map f xs) (h ∙ ap f (sym same))
  map-set (z ∷ xs) (suc i) x y e h = ap (λ l. f z ∷ l) (map-set xs i x y e h)

  pub get_elem?-map :
      (xs : List A) (i : ℕ) (y : B)
      → get_elem? (map f xs) i ≡ some y
      → (x : A) × (get_elem? xs i ≡ some x) × (f x ≡ y)
  get_elem?-map [] i y e = cc
  get_elem?-map (x ∷ xs) zero y e = (x, refl, cc)
  get_elem?-map (x ∷ xs) (suc i) y e = get_elem?-map xs i y e

  pub map-get_elem? :
      (xs : List A) (i : ℕ) (x : A) → get_elem? xs i ≡ some x → get_elem? (map f xs) i ≡ some (f x)
  map-get_elem? [] i x e = cc
  map-get_elem? (y ∷ xs) zero x e = let same : y ≡ x = cc in ap (λ z. some (f z)) same
  map-get_elem? (y ∷ xs) (suc i) x e = map-get_elem? xs i x e
