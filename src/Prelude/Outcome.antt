-- ===== src/Prelude/Outcome.antt =====
-- The result of a Python call: a value, or the exception that it raises.
use agentic_juggling.Prelude.{Option, none, some}

pub data Error : Type 0 where
  match_not_found wrong_state ready_timeout : Error
  value_error key_error type_error attribute_error integrity_error : Error
  invalid_key invalid_tag decode_error cancelled system_exit : Error
  file_not_found is_a_directory os_error : Error

pub data Outcome {ℓ} (A : Type ℓ) : Type ℓ where
  ok : A → Outcome A
  err : Error → Outcome A

abbrev pub or_raise {ℓ} : {A : Type ℓ} → Option A → Error → Outcome A
or_raise none e = err e
or_raise (some a) e = ok a

-- A method of an object: it may raise, and what it wrote before the raise stays written.
abbrev pub Exec : Type 0 → Type 0 → Type 0
Exec S A = S → Outcome A × S

module _ {S A : Type 0} where
  abbrev pub pure : A → Exec S A
  pure a s = (ok a, s)

  abbrev pub raise : Error → Exec S A
  raise e s = (err e, s)

  abbrev pub lift : Outcome A → Exec S A
  lift r s = (r, s)

  abbrev pub gets : (S → A) → Exec S A
  gets f s = (ok (f s), s)

abbrev pub update : {S : Type 0} → (S → S) → Exec S (Unit {0})
update f s = (ok tt, f s)

module _ {S A B : Type 0} where
  abbrev pub continue : Outcome A → (A → Exec S B) → Exec S B
  continue (ok a) f s = f a s
  continue (err e) f s = (err e, s)

  infixl 5 ◌>>=◌ ◌>>◌
  abbrev pub ◌>>=◌ : Exec S A → (A → Exec S B) → Exec S B
  ◌>>=◌ m f s = let (r, s') = m s in continue r f s'

  abbrev pub ◌>>◌ : Exec S A → Exec S B → Exec S B
  m >> n = m >>= λ _. n
