-- ===== src/Repositories/Disputes/Order.antt =====
-- The laws of ORDER BY and LIMIT: the rows are the same ones, in order, and the first ones are taken.
use chargeback_iq.Prelude.{
  ℕ, zero, suc, ◌≤◌, List, [], ◌∷◌, ◌≡◌, refl, sym, subst, inl, inr, ◌⊎◌, arith, All, In, leb,
  Bool-cases, length,
}
use chargeback_iq.Repositories.Disputes.Queue.{insert_by, order_by, take}

module _ {A : Type 0} (key : A → ℕ) where
  pub In-of_In-insert_by :
      (x : A) (ys : List A) (d : A) → In d (insert_by key x ys) → (d ≡ x) ⊎ In d ys
  unfolding insert_by
  In-of_In-insert_by x [] d h = h
  In-of_In-insert_by x (y ∷ ys) d h = ground (arith, In-of_In-insert_by x ys d)

  pub In-of_In-order_by : (xs : List A) (d : A) → In d (order_by key xs) → In d xs
  unfolding order_by
  In-of_In-order_by [] d h = h
  In-of_In-order_by (x ∷ xs) d h =
      ground (arith, In-of_In-insert_by x (order_by key xs) d, In-of_In-order_by xs d)

  In-insert_by_left : (x : A) (ys : List A) → In x (insert_by key x ys)
  unfolding insert_by
  In-insert_by_left x [] = inl refl
  In-insert_by_left x (y ∷ ys) = elim (Bool-cases (leb (key x) (key y))) [
    | inl e ↦ rw e (inl refl)
    | inr e ↦ rw e (inr (In-insert_by_left x ys))
  ]

  In-insert_by_right : (x : A) (ys : List A) (d : A) → In d ys → In d (insert_by key x ys)
  unfolding insert_by
  In-insert_by_right x [] d i = elim i [ ]
  In-insert_by_right x (y ∷ ys) d i = elim (Bool-cases (leb (key x) (key y))) [
    | inl e ↦ rw e (inr i)
    | inr e ↦ rw e (elim i [ inl same ↦ inl same | inr j ↦ inr (In-insert_by_right x ys d j) ])
  ]

  pub In-order_by : (xs : List A) (d : A) → In d xs → In d (order_by key xs)
  unfolding order_by
  In-order_by [] d i = elim i [ ]
  In-order_by (x ∷ xs) d (inl same) =
      subst (λ (y : A). In y (insert_by key x (order_by key xs))) (sym same)
        (In-insert_by_left x (order_by key xs))
  In-order_by (x ∷ xs) d (inr i) = In-insert_by_right x (order_by key xs) d (In-order_by xs d i)

  -- Every element comes before those that follow it.
  abbrev pub IsSorted : List A → Type 0
  IsSorted [] = Unit
  IsSorted (x ∷ xs) = All (λ y. key x ≤ key y) xs × IsSorted xs

  All-weaken : (n m : ℕ) (ys : List A) → n ≤ m → All (λ y. m ≤ key y) ys → All (λ y. n ≤ key y) ys
  All-weaken n m [] le a = tt
  All-weaken n m (y ∷ ys) le (h, t) = (omega arith, All-weaken n m ys le t)

  All-insert_by :
      (n : ℕ) (x : A) (ys : List A)
      → n ≤ key x
      → All (λ y. n ≤ key y) ys
      → All (λ y. n ≤ key y) (insert_by key x ys)
  unfolding insert_by
  All-insert_by n x [] le a = (le, tt)
  All-insert_by n x (y ∷ ys) le (h, t) = elim (Bool-cases (leb (key x) (key y))) [
    | inl e ↦ rw e (le, (h, t))
    | inr e ↦ rw e (h, All-insert_by n x ys le t)
  ]

  IsSorted-insert_by : (x : A) (ys : List A) → IsSorted ys → IsSorted (insert_by key x ys)
  unfolding insert_by
  IsSorted-insert_by x [] s = (tt, tt)
  IsSorted-insert_by x (y ∷ ys) (a, s) = elim (Bool-cases (leb (key x) (key y))) [
    | inl e ↦
        let le : key x ≤ key y = ground arith in
        rw e ((le, All-weaken (key x) (key y) ys le a), (a, s))
    | inr e ↦
        let le : key y ≤ key x = ground arith in
        rw e (All-insert_by (key y) x ys le a, IsSorted-insert_by x ys s)
  ]

  pub IsSorted-order_by : (xs : List A) → IsSorted (order_by key xs)
  unfolding order_by
  IsSorted-order_by [] = tt
  IsSorted-order_by (x ∷ xs) = IsSorted-insert_by x (order_by key xs) (IsSorted-order_by xs)

  All_at : (P : A → Type 0) (xs : List A) (d : A) → All P xs → In d xs → P d
  All_at P [] d a i = elim i [ ]
  All_at P (x ∷ xs) d (h, t) (inl e) = subst P (sym e) h
  All_at P (x ∷ xs) d (h, t) (inr i) = All_at P xs d t i

  pub In-of_In-take : (n : ℕ) (xs : List A) (d : A) → In d (take n xs) → In d xs
  In-of_In-take zero xs d i = elim i [ ]
  In-of_In-take (suc n) [] d i = elim i [ ]
  In-of_In-take (suc n) (x ∷ xs) d (inl e) = inl e
  In-of_In-take (suc n) (x ∷ xs) d (inr i) = inr (In-of_In-take n xs d i)

  -- An element is among the first `n`, or there are `n` that come no later.
  pub In-take :
      (n : ℕ) (xs : List A) (d : A)
      → IsSorted xs
      → In d xs
      → In d (take n xs) ⊎ ((length (take n xs) ≡ n) × All (λ y. key y ≤ key d) (take n xs))
  In-take zero xs d s i = inr (refl, tt)
  In-take (suc n) [] d s i = elim i [ ]
  In-take (suc n) (x ∷ xs) d (a, s) (inl e) = inl (inl e)
  In-take (suc n) (x ∷ xs) d (a, s) (inr i) = elim (In-take n xs d s i) [
    | inl j ↦ inl (inr j)
    | inr (full, later) ↦ inr (omega (arith, full), (All_at (λ y. key x ≤ key y) xs d a i, later))
  ]
