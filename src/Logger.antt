-- ===== src/Logger.antt =====
-- src/lib/logger.js: which lines are printed, and with which fields.
--
-- A line is the object that is printed, as its names and values in order.
use chargeback_iq.Prelude.{
  ℕ, String, Option, none, some, Bool, false, ◌≡◌, refl, arith, List, [], ◌∷◌, if◌then◌else◌, ◌==◌,
  ==_refl, ltb, or_default,
}
use chargeback_iq.Objects.{is_inherited}

-- `LEVELS[name]`: a number, something that the object inherits, which compares as NaN, or undefined.
pub data Level : Type 0 where
  number : ℕ → Level
  inherited missing : Level

unfoldable pub level_of : String → Level
level_of name =
    if name == "error"
    then number 0
    else if name == "warn"
    then number 1
    else if name == "info"
    then number 2
    else if name == "debug"
    then number 3
    else if is_inherited name
    then inherited
    else missing

-- `?? LEVELS.info`
abbrev pub or_info : Level → Level
or_info (number n) = number n
or_info inherited = inherited
or_info missing = number 2

-- `log_level` is `process.env.LOG_LEVEL`.
unfoldable pub threshold : (log_level : Option String) → Level
unfolding level_of
threshold log_level = or_info (level_of (or_default log_level "info"))

-- `a > b`
abbrev pub above : Level → Level → Bool
above (number a) (number b) = ltb b a
above _ _ = false

module _ {A : Type 0} where
  -- A property that is set keeps its place, and takes the new value.
  unfoldable pub set_field : (name : String) → A → List (String × A) → List (String × A)
  set_field name value [] = (name, value) ∷ []
  set_field name value ((other, old) ∷ fields) =
      if other == name then (name, value) ∷ fields else (other, old) ∷ set_field name value fields

  -- `{ ...line, ...fields }`
  unfoldable pub spread : List (String × A) → List (String × A) → List (String × A)
  spread line [] = line
  spread line ((name, value) ∷ fields) = spread (set_field name value line) fields

  abbrev pub field : String → List (String × A) → Option A
  field name [] = none
  field name ((other, value) ∷ fields) = if other == name then some value else field name fields

-- The line that is printed, if one is.
unfoldable pub emit :
    (log_level : Option String) (ts level message : String) (fields : List (String × String))
    → Option (List (String × String))
unfolding threshold spread
emit log_level ts level message fields =
    if above (level_of level) (threshold log_level)
    then none
    else some (spread (("ts", ts) ∷ ("level", level) ∷ ("message", message) ∷ []) fields)

module _ {A : Type 0} where
  field-set_field :
      (name asked : String) (value : A) (line : List (String × A))
      → field asked (set_field name value line)
        ≡ (if name == asked then some value else field asked line)
  unfolding set_field
  field-set_field name asked value [] = refl
  field-set_field name asked value ((other, old) ∷ line) =
      ground (arith, field-set_field name asked value line)

  field-spread :
      (asked : String) (line fields : List (String × A))
      → field asked fields ≡ none
      → field asked (spread line fields) ≡ field asked line
  unfolding spread
  field-spread asked line [] h = refl
  field-spread asked line ((name, value) ∷ fields) h = ground (
    arith,
    field-spread asked (set_field name value line) fields (ground arith),
    field-set_field name asked value line,
  )

-- A call with a field named message prints that field as the message of the line: the message of the call
-- is lost.
message_lost :
    (log_level : Option String) (ts level message text : String) (fields : List (String × String))
    → above (level_of level) (threshold log_level) ≡ false
    → field "message" fields ≡ none
    → (line : List (String × String)) × (emit log_level ts level message
          (("message", text) ∷ fields)
        ≡ some line)
      × (field "message" line ≡ some text)
unfolding emit spread
message_lost log_level ts level message text fields printed h =
    let line = ("ts", ts) ∷ ("level", level) ∷ ("message", message) ∷ [] in
    (
      spread (set_field "message" text line) fields,
      rw printed refl,
      ground (
        arith,
        field-spread "message" (set_field "message" text line) fields h,
        field-set_field "message" "message" text line,
        ==_refl "message",
      ),
    )
