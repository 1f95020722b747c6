-- ===== src/Objects.antt =====
-- Object literals as dictionaries: the names that every literal inherits from Object.prototype, so
-- that a lookup of such a name finds a value that the literal does not list.
use chargeback_iq.Prelude.{String, Bool, List, [], ◌∷◌, ◌==◌, any}

abbrev pub inherited_names : List String
inherited_names =
    "constructor" ∷ "__defineGetter__" ∷ "__defineSetter__" ∷ "hasOwnProperty" ∷ "__lookupGetter__"
    ∷ "__lookupSetter__" ∷ "isPrototypeOf" ∷ "propertyIsEnumerable" ∷ "toString" ∷ "valueOf"
    ∷ "__proto__" ∷ "toLocaleString" ∷ []

unfoldable pub is_inherited : String → Bool
is_inherited name = any (λ n. n == name) inherited_names
