-- ===== src/Migrate/Order.antt =====
-- The order of the files of a run.
use Prim.Native.Nat.{Ordering, compare as compare_ℕ}
use Prim.Native.Nat.compare as Codes
use Prim.Native.String.compare as Names
use Prim.Native.Char.{code}
use Prim.Native.String.{compare, then as in_turn, [] as empty, ◌∷◌ as first}
use mathlib.Core.List.{Perm}
use mathlib.Core.List.Perm
use chargeback_iq.Prelude.{
  ℕ, zero, suc, String, true, false, List, [], ◌∷◌, ◌≡◌, ◌≢◌, refl, inl, inr, Bool-cases,
}
use chargeback_iq.Migrate.{before, insert_name, sort}

-- The other way round.
abbrev reverse : Ordering → Ordering
reverse Ordering.lt = Ordering.gt
reverse Ordering.eq = Ordering.eq
reverse Ordering.gt = Ordering.lt

compare_codes : (m n : ℕ) → compare_ℕ n m ≡ reverse (compare_ℕ m n)
compare_codes zero zero = refl
compare_codes zero (suc n) = rw (Codes.suc-zero n, Codes.zero-suc n) refl
compare_codes (suc m) zero = rw (Codes.suc-zero m, Codes.zero-suc m) refl
compare_codes (suc m) (suc n) = rw (Codes.suc-suc n m, Codes.suc-suc m n) (compare_codes m n)

in_turn-reverse : (o o' : Ordering) → in_turn (reverse o) (reverse o') ≡ reverse (in_turn o o')
in_turn-reverse Ordering.lt o' = refl
in_turn-reverse Ordering.eq o' = refl
in_turn-reverse Ordering.gt o' = refl

compare-reverse : (f g : String) → compare g f ≡ reverse (compare f g)
compare-reverse empty empty = refl
compare-reverse empty (first d t) = rw (Names.cons-nil d t, Names.nil-cons d t) refl
compare-reverse (first c s) empty = rw (Names.cons-nil c s, Names.nil-cons c s) refl
compare-reverse (first c s) (first d t) =
    rw
      (
        Names.cons-cons d c t s,
        Names.cons-cons c d s t,
        compare_codes (code c) (code d),
        compare-reverse s t,
      )
      (in_turn-reverse (compare_ℕ (code c) (code d)) (compare s t))

-- No name comes after the next one.
abbrev pub IsBelow : String → List String → Type 0
IsBelow f [] = Unit
IsBelow f (g ∷ gs) = compare f g ≢ Ordering.gt

abbrev pub IsSorted : List String → Type 0
IsSorted [] = Unit
IsSorted (f ∷ fs) = IsBelow f fs × IsSorted fs

not_after : (o : Ordering) → before o ≡ true → o ≢ Ordering.gt
not_after Ordering.lt h e = cc e
not_after Ordering.eq h e = cc e
not_after Ordering.gt h e = cc h

not_before : (o : Ordering) → before o ≡ false → reverse o ≢ Ordering.gt
not_before Ordering.lt h e = cc h
not_before Ordering.eq h e = cc h
not_before Ordering.gt h e = cc e

IsBelow-insert_name :
    (g f : String) (fs : List String)
    → compare g f ≢ Ordering.gt
    → IsBelow g fs
    → IsBelow g (insert_name f fs)
unfolding insert_name
IsBelow-insert_name g f [] h b = h
IsBelow-insert_name g f (x ∷ fs) h b = elim (Bool-cases (before (compare f x))) [
  | inl e ↦ rw e h
  | inr e ↦ rw e b
]

insert_name-IsSorted : (f : String) (fs : List String) → IsSorted fs → IsSorted (insert_name f fs)
unfolding insert_name
insert_name-IsSorted f [] s = (tt, tt)
insert_name-IsSorted f (g ∷ fs) s = elim (Bool-cases (before (compare f g))) [
  | inl e ↦ rw e (not_after (compare f g) e, s)
  | inr e ↦ rw e (
    IsBelow-insert_name g f fs (rw (compare-reverse f g) (not_before (compare f g) e)) s.0,
    insert_name-IsSorted f fs s.1,
  )
]

insert_name-Perm : (f : String) (fs : List String) → Perm (insert_name f fs) (f ∷ fs)
unfolding insert_name
insert_name-Perm f [] = Perm.rfl
insert_name-Perm f (g ∷ fs) = elim (Bool-cases (before (compare f g))) [
  | inl e ↦ rw e Perm.rfl
  | inr e ↦ rw e (Perm.trans (Perm.cons g (insert_name-Perm f fs)) (Perm.swap f g fs))
]

pub sort-IsSorted : (fs : List String) → IsSorted (sort fs)
unfolding sort
sort-IsSorted [] = tt
sort-IsSorted (f ∷ fs) = insert_name-IsSorted f (sort fs) (sort-IsSorted fs)

pub sort-Perm : (fs : List String) → Perm (sort fs) fs
unfolding sort
sort-Perm [] = Perm.rfl
sort-Perm (f ∷ fs) = Perm.trans (insert_name-Perm f (sort fs)) (Perm.cons f (sort-Perm fs))
