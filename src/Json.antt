-- ===== src/Json.antt =====
-- The values of Python's `json`: a document is this tree, `dumps` and `loads` pass between it and
-- its text. A number is an int, or a float in ticks.
pub mod Document
pub mod Text
pub mod Write
pub mod Read
pub mod Number
pub mod RoundTrip
use agentic_juggling.Prelude.{String, Bool, List, [], ◌∷◌, ◌==◌, if◌then◌else◌}
use agentic_juggling.Prelude.Int.{ℤ, pos, unit, ◌*ℤ◌}
use agentic_juggling.Prelude.Outcome.{Error, Outcome, ok, err}

mutual
  pub data Json : Type 0 where
    null : Json
    flag : Bool → Json
    int : ℤ → Json
    num : ℤ → Json
    str : String → Json
    arr : Items → Json
    obj : Fields → Json

  pub data Items : Type 0 where
    nil : Items
    cons : Json → Items → Items

  pub data Fields : Type 0 where
    end : Fields
    field : String → Json → Fields → Fields

-- `o[key]`: a missing key raises KeyError
unfoldable pub at_key : String → Fields → Outcome Json
at_key k end = err Error.key_error
at_key k (field j v rest) = if j == k then ok v else at_key k rest

abbrev pub keys : Fields → List String
keys end = []
keys (field k v rest) = k ∷ keys rest

-- The readers that the typed model needs. A document that `MatchStore.create` wrote has no value
-- of another type.
abbrev pub as_str : Json → Outcome String
as_str (str s) = ok s
as_str _ = err Error.type_error

abbrev pub as_num : Json → Outcome ℤ
as_num (num z) = ok z
as_num (int z) = ok (z *ℤ pos unit)
as_num _ = err Error.type_error

abbrev pub as_obj : Json → Outcome Fields
as_obj (obj o) = ok o
as_obj _ = err Error.type_error

abbrev pub as_arr : Json → Outcome Items
as_arr (arr xs) = ok xs
as_arr _ = err Error.type_error
