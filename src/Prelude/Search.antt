-- ===== src/Prelude/Search.antt =====
-- Laws of the searches through lists.
use mathlib.Core.Path.{◌≡◌, refl, ap}
use mathlib.Core.Logic.{inl, inr}
use mathlib.Core.Bool.{Bool, true, false}
use mathlib.Core.Option.{none, some}
use mathlib.Core.List.{List, [], ◌∷◌, map}
use native.Mathlib.Omega.{arith}
use chargeback_iq.Prelude.Tests.{Bool-cases}
use chargeback_iq.Prelude.Lists.{find, any, all, keep, In}

module _ {A : Type 0} (p : A → Bool) where
  pub find-eq-some : (xs : List A) (x : A) → find p xs ≡ some x → In x xs × (p x ≡ true)
  find-eq-some [] x h = cc
  find-eq-some (y ∷ xs) x h = elim (Bool-cases (p y)) [
    | inl e ↦ (ground arith, ground arith)
    | inr e ↦ ground (arith, find-eq-some xs x)
  ]

  pub find-eq-none : (xs : List A) → find p xs ≡ none → (x : A) → In x xs → p x ≡ false
  find-eq-none (y ∷ xs) h x (inl e) = rw e (ground arith)
  find-eq-none (y ∷ xs) h x (inr m) = find-eq-none xs (ground arith) x m
  find-eq-none [] h x m = elim m [ ]

  pub find-eq-none_of : (xs : List A) → ((x : A) → In x xs → p x ≡ false) → find p xs ≡ none
  find-eq-none_of [] h = refl
  find-eq-none_of (y ∷ xs) h =
      ground (arith, h y (inl refl), find-eq-none_of xs (λ x m. h x (inr m)))

  pub all-In : (xs : List A) → all p xs ≡ true → (x : A) → In x xs → p x ≡ true
  all-In [] h x m = elim m [ ]
  all-In (y ∷ xs) h x (inl e) = rw e (ground arith)
  all-In (y ∷ xs) h x (inr m) = all-In xs (ground arith) x m

  pub all_of_In : (xs : List A) → ((x : A) → In x xs → p x ≡ true) → all p xs ≡ true
  all_of_In [] h = refl
  all_of_In (y ∷ xs) h = ground (arith, h y (inl refl), all_of_In xs (λ x m. h x (inr m)))

  pub any-eq-false : (xs : List A) → any p xs ≡ false → (x : A) → In x xs → p x ≡ false
  any-eq-false [] h x m = elim m [ ]
  any-eq-false (y ∷ xs) h x (inl e) = rw e (ground arith)
  any-eq-false (y ∷ xs) h x (inr m) = any-eq-false xs (ground arith) x m

  pub In-keep : (xs : List A) (x : A) → In x xs → p x ≡ true → In x (keep p xs)
  In-keep [] x m h = elim m [ ]
  In-keep (y ∷ xs) x (inl e) h = rw (rw e at h) (inl e)
  In-keep (y ∷ xs) x (inr m) h = elim (Bool-cases (p y)) [
    | inl e ↦ rw e (inr (In-keep xs x m h))
    | inr e ↦ rw e (In-keep xs x m h)
  ]

  pub In-of_In-keep : (xs : List A) (x : A) → In x (keep p xs) → In x xs × (p x ≡ true)
  In-of_In-keep [] x m = elim m [ ]
  In-of_In-keep (y ∷ xs) x m = elim (Bool-cases (p y)) [
    | inl e ↦ ground (arith, In-of_In-keep xs x)
    | inr e ↦ ground (arith, In-of_In-keep xs x)
  ]

module _ {A B : Type 0} (f : A → B) where
  pub In-map : (xs : List A) (x : A) → In x xs → In (f x) (map f xs)
  In-map [] x m = m
  In-map (y ∷ xs) x (inl e) = inl (ap f e)
  In-map (y ∷ xs) x (inr m) = inr (In-map xs x m)

  pub of_In-map : (xs : List A) (b : B) → In b (map f xs) → (x : A) × In x xs × (b ≡ f x)
  of_In-map [] b m = elim m [ ]
  of_In-map (y ∷ xs) b (inl e) = (y, inl refl, e)
  of_In-map (y ∷ xs) b (inr m) = let (x, i, e) = of_In-map xs b m in (x, inr i, e)
