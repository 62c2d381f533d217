-- ===== src/Json.antt =====
-- JSON values, as `JSON.parse` returns them: what signed payloads and stored values are made of.
-- A text is the list of its UTF-16 code units, and a number a natural one.
use chatbot_integration.Prelude.{
  ℕ, Bool, true, false, ◌&&◌, ◌==◌, Option, none, some, List, [], ◌∷◌, if◌then◌else◌,
}

mutual
  pub data Json : Type 0 where
    null : Json
    bool : Bool → Json
    num : ℕ → Json
    text : List ℕ → Json
    array : Items → Json
    object : Fields → Json

  pub data Items : Type 0 where
    nil : Items
    cons : Json → Items → Items

  pub data Fields : Type 0 where
    end : Fields
    field : (key : List ℕ) → Json → Fields → Fields

abbrev pub same_units : List ℕ → List ℕ → Bool
same_units [] [] = true
same_units (a ∷ s) (b ∷ t) = (a == b) && same_units s t
same_units _ _ = false

-- A property of an object that is missing is `undefined`, here `none`.
abbrev pub get_field : (key : List ℕ) → Fields → Option Json
get_field key end = none
get_field key (field k v fields) =
    let rest = get_field key fields in if same_units key k then some v else rest
