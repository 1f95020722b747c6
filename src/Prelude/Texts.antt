-- ===== src/Prelude/Texts.antt =====
-- Texts as the source compares and joins them.
use Prim.Native.String.{String, ◌++◌}
use mathlib.Core.Path.{◌≡◌, refl}
use mathlib.Core.Logic.{◌↔◌}
use mathlib.Core.Bool.{Bool, true, false, false≢true}
use mathlib.Core.Option.{Option, none, some}
use native.Mathlib.Omega.{arith}
use text.Mathlib.Text.{◌==◌ as str_eq}
use text.Mathlib.TextEquality.{eq_iff}

-- Whether two texts are the same one.
dec_of_test : (s t : String) (b : Bool) → (b ≡ true) ↔ (s ≡ t) → Dec (s ≡ t)
dec_of_test s t true h = yes (h.0 refl)
dec_of_test s t false h = no (λ e. false≢true (h.1 e))

unfoldable pub dec_text : (s t : String) → Dec (s ≡ t)
unfolding dec_of_test
dec_text s t = dec_of_test s t (str_eq s t) (eq_iff s t)

-- `a === b` on strings.
infix 50 ◌==◌
abbrev pub ◌==◌ : String → String → Bool
s == t = elim (dec_text s t) [ yes _ ↦ true | no _ ↦ false ]

-- `a === b` where the left side may be null or undefined.

abbrev pub opt_eq : Option String → String → Bool
opt_eq none t = false
opt_eq (some s) t = s == t

pub ==_iff : (s t : String) → ((s == t) ≡ true) ↔ (s ≡ t)
==_iff s t = ground arith

pub ==_refl : (s : String) → (s == s) ≡ true
==_refl s = ground arith

pub ==_ne : (s t : String) → ¬ (s ≡ t) → (s == t) ≡ false
==_ne s t h = ground arith

-- A nullable value inside a template string.
abbrev pub shown : Option String → String
shown none = "undefined"
shown (some s) = s

same_test : ("ab" == "ab") ≡ true
unfolding dec_text
same_test = refl

joined_test : "ab" ++ "c" ≡ "abc"
joined_test = refl
