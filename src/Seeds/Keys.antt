-- ===== src/Seeds/Keys.antt =====
-- The table of moves has its primary key.
use chargeback_iq.Prelude.{
  Bool, true, not, ◌&&◌, List, [], ◌∷◌, ◌≡◌, refl, sym, ◌∙◌, inl, inr, arith, any, any-eq-false,
  ◌==◌, ==_refl, dec_text, subst,
}
use chargeback_iq.Lifecycle.{Transition, Move}
use chargeback_iq.Lifecycle.Laws.{HasUniqueMoves, IsRowOf}
use chargeback_iq.Seeds.{seeded_transitions}

abbrev is_twin : Transition → Transition → Bool
is_twin t u =
    u.from_status == t.from_status
    && (u.to_status == t.to_status && u.triggered_by == t.triggered_by)

abbrev has_no_twins : List Transition → Bool
has_no_twins [] = true
has_no_twins (t ∷ ts) = not (any (is_twin t) ts) && has_no_twins ts

twins : (m : Move) (t u : Transition) → IsRowOf m t → IsRowOf m u → is_twin t u ≡ true
twins m t u a b = ground (
  arith,
  a.from,
  a.to,
  a.by,
  b.from,
  b.to,
  b.by,
  ==_refl m.from,
  ==_refl m.to,
  ==_refl m.triggered_by,
)

unique_of_no_twins : (ts : List Transition) → has_no_twins ts ≡ true → HasUniqueMoves ts
unique_of_no_twins [] h m t u i j a b = elim i [ ]
unique_of_no_twins (x ∷ ts) h m t u (inl e) (inl f) a b = e ∙ sym f
unique_of_no_twins (x ∷ ts) h m t u (inl e) (inr j) a b =
    absurd
      (cc (any-eq-false (is_twin x) ts (ground arith) u j, twins m x u (subst (IsRowOf m) e a) b))
unique_of_no_twins (x ∷ ts) h m t u (inr i) (inl f) a b =
    absurd
      (cc (any-eq-false (is_twin x) ts (ground arith) t i, twins m x t (subst (IsRowOf m) f b) a))
unique_of_no_twins (x ∷ ts) h m t u (inr i) (inr j) a b =
    unique_of_no_twins ts (ground arith) m t u i j a b

seeded_no_twins : has_no_twins seeded_transitions ≡ true
unfolding dec_text
seeded_no_twins = refl

pub seeded-HasUniqueMoves : HasUniqueMoves seeded_transitions
seeded-HasUniqueMoves = unique_of_no_twins seeded_transitions seeded_no_twins
