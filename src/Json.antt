-- ===== src/Json.antt =====
-- JSON values as the clients build them and the backend reads them. Numbers are from 0 up: all that
-- an order sends are.
use thassa.Base.{
  ℕ, Bool, true, false, ◌&&◌, ◌||◌, if◌then◌else◌, Text, text_eq, List, [], ◌∷◌, Option, none, some,
}

mutual
  pub data Json : Type 0 where
    null : Json
    num : ℕ → Json
    str : Text → Json
    obj : Fields → Json

  pub data Fields : Type 0 where
    nil : Fields
    cons : Text → Json → Fields → Fields

-- An object literal.
abbrev pub fields : List (Text × Json) → Fields
fields [] = nil
fields ((k, v) ∷ r) = cons k v (fields r)

-- `...first, ...second` in an object literal.
unfoldable pub spread : Fields → Fields → Fields
spread nil fs = fs
spread (cons k v r) fs = cons k v (spread r fs)

unfoldable pub field : Text → Fields → Option Json
field name nil = none
field name (cons k v r) = if text_eq k name then some v else field name r

-- `x ?? null`.
abbrev pub nullable : Option Text → Json
nullable none = null
nullable (some t) = str t

abbrev pub among : Text → List Text → Bool
among name [] = false
among name (n ∷ ns) = text_eq n name || among name ns

-- `DisallowUnknownFields`.
unfoldable pub known : List Text → Fields → Bool
known names nil = true
known names (cons k v r) = among k names && known names r
