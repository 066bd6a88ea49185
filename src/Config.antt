-- ===== src/Config.antt =====
-- What central_server/config.py and node/config.py share: the environment, the files, and Python's `int` and
-- `float` on the values that they meet. `json.load` and `float` on a text are arguments of the models.
pub mod Server
pub mod Node
pub mod Sources
use agentic_juggling.Prelude.{ℕ, ◌/◌, String, Bool, true, false, Option, none, some, ◌*◌}
use agentic_juggling.Prelude.Int.{ℤ, pos, sub_ℕ, pos_part, neg_part, unit, ◌*ℤ◌}
use agentic_juggling.Prelude.Dict.{Dict, lookup}
use agentic_juggling.Prelude.Outcome.{Error, Outcome, ok, err}
use agentic_juggling.Prelude.Unicode.{int_of_text}
use agentic_juggling.Json.{Json}

-- an expression that may raise, and what uses its value
infixl 5 ◌>>=◌
abbrev pub ◌>>=◌ {ℓ κ} : {A : Type ℓ} {B : Type κ} → Outcome A → (A → Outcome B) → Outcome B
ok a >>= f = f a
err e >>= f = err e

-- `os.environ`
abbrev pub Environ : Type 0
Environ = Dict String

pub data Entry : Type 0 where
  file : String → Entry
  directory : Entry

abbrev pub Files : Type 0
Files = Dict Entry

opened : Option Entry → Outcome String
opened none = err Error.file_not_found
opened (some (Entry.file text)) = ok text
opened (some Entry.directory) = err Error.is_a_directory

-- `open(path)` and what `f.read()` returns
unfoldable pub read_file : String → Files → Outcome String
unfolding opened
read_file path files = opened (lookup path files)

abbrev pub of_flag : Bool → ℕ
of_flag true = 1
of_flag false = 0

-- `int(value)`: a number is cut towards zero
unfoldable pub int_of : Json → Outcome ℤ
int_of Json.null = err Error.type_error
int_of (Json.flag b) = ok (pos (of_flag b))
int_of (Json.int z) = ok z
int_of (Json.num z) = ok (sub_ℕ (pos_part z / unit) (neg_part z / unit))
int_of (Json.str s) = int_of_text s
int_of (Json.arr _) = err Error.type_error
int_of (Json.obj _) = err Error.type_error

-- `float(value)`, in ticks
unfoldable pub float_of : (String → Outcome ℤ) → Json → Outcome ℤ
float_of float Json.null = err Error.type_error
float_of float (Json.flag b) = ok (pos (of_flag b * unit))
float_of float (Json.int z) = ok (z *ℤ pos unit)
float_of float (Json.num z) = ok z
float_of float (Json.str s) = float s
float_of float (Json.arr _) = err Error.type_error
float_of float (Json.obj _) = err Error.type_error
