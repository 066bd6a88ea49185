-- ===== src/Json/Number.antt =====
-- Numbers in JSON texts, as Python's `json` writes and reads them. A float is an integer number of ticks of 1/10000;
-- `repr` writes as few digits as give the float back, which for fewer than 10^15 ticks are those of the decimal
-- number itself. One with more places than four is read as the nearest tick, a tie as the even one.
pub mod Ascii
pub mod Back
pub mod Digits
pub mod Fraction
pub mod Length
use Prim.Native.Nat.{◌^◌}
use agentic_juggling.Prelude.{
  ℕ, zero, suc, ◌+◌, ◌-◌, ◌*◌, ◌/◌, ◌%◌, Bool, true, false, ◌&&◌, ◌||◌, Option, none, some, List,
  [], ◌∷◌, ◌++◌, nat_eq, ltb, leb, if◌then◌else◌,
}
use agentic_juggling.Prelude.Int.{ℤ, pos, negsuc, sub_ℕ}

-- a number has at most one digit more than its value
pub digits_from : ℕ → ℕ → List ℕ → List ℕ
digits_from zero n out = out
digits_from (suc fuel) n out =
    let longer = digits_from fuel (n / 10) ((48 + n % 10) ∷ out) in
    if ltb n 10 then (48 + n) ∷ out else longer

-- `str(n)`, with what follows it
unfoldable pub digits : ℕ → List ℕ → List ℕ
unfolding digits_from
digits n out = digits_from (n + 1) n out

-- up to four places, no zero behind the first of them
abbrev pub places : ℕ → List ℕ
places r =
    if nat_eq (r % 1_000) 0
    then (48 + r / 1_000) ∷ []
    else if nat_eq (r % 100) 0
    then (48 + r / 1_000) ∷ (48 + r / 100 % 10) ∷ []
    else if nat_eq (r % 10) 0
    then (48 + r / 1_000) ∷ (48 + r / 100 % 10) ∷ (48 + r / 10 % 10) ∷ []
    else (48 + r / 1_000) ∷ (48 + r / 100 % 10) ∷ (48 + r / 10 % 10) ∷ (48 + r % 10) ∷ []

abbrev pub magnitude : ℕ → List ℕ → List ℕ
magnitude n out = digits (n / 10_000) (46 ∷ (places (n % 10_000) ++ out))

-- an int, and a float by its ticks, with what follows
unfoldable pub write_int : ℤ → List ℕ → List ℕ
write_int (pos n) out = digits n out
write_int (negsuc n) out = 45 ∷ digits (n + 1) out

unfoldable pub write_float : ℤ → List ℕ → List ℕ
write_float (pos n) out = magnitude n out
write_float (negsuc n) out = 45 ∷ magnitude (n + 1) out

abbrev pub is_digit : ℕ → Bool
is_digit c = leb 48 c && leb c 57

-- digits, their value and number, and what follows them
abbrev pub read_digits : ℕ → ℕ → List ℕ → ℕ × ℕ × List ℕ
read_digits acc count [] = (acc, count, [])
read_digits acc count (c ∷ cs) =
    let more = read_digits (10 * acc + (c - 48)) (count + 1) cs in
    if is_digit c then more else (acc, count, c ∷ cs)

-- `0|[1-9]\d*`
abbrev pub read_whole : List ℕ → Option (ℕ × List ℕ)
read_whole [] = none
read_whole (c ∷ cs) =
    if nat_eq c 48
    then some (0, cs)
    else if is_digit c
    then (let r = read_digits 0 0 (c ∷ cs) in some (r.0, r.2))
    else none

pub record Places : Type 0 where
  pub value : ℕ
  pub count : ℕ
  pub is_float : Bool
  pub rest : List ℕ

-- `(\.\d+)?`
abbrev pub some_places : ℕ → List ℕ → ℕ × ℕ × List ℕ → Places
some_places n before (v, zero, r) = record { value = n; count = 0; is_float = false; rest = before }
some_places n before (v, suc k, r) = record { value = v; count = suc k; is_float = true; rest = r }

abbrev pub read_places : ℕ → List ℕ → Places
read_places n [] = record { value = n; count = 0; is_float = false; rest = [] }
read_places n (c ∷ cs) =
    if nat_eq c 46
    then some_places n (c ∷ cs) (read_digits n 0 cs)
    else record { value = n; count = 0; is_float = false; rest = c ∷ cs }

-- `([eE][-+]?\d+)?`: whether it is there and negative, and its value
abbrev pub signed_digits : List ℕ → Bool × (ℕ × ℕ × List ℕ)
signed_digits [] = (false, read_digits 0 0 [])
signed_digits (c ∷ cs) =
    if nat_eq c 45
    then (true, read_digits 0 0 cs)
    else if nat_eq c 43
    then (false, read_digits 0 0 cs)
    else (false, read_digits 0 0 (c ∷ cs))

pub data Exponent : Type 0 where
  absent : Exponent
  up : ℕ → List ℕ → Exponent
  down : ℕ → List ℕ → Exponent

abbrev pub some_exponent : Bool × (ℕ × ℕ × List ℕ) → Exponent
some_exponent (minus, (v, zero, r)) = absent
some_exponent (true, (v, suc k, r)) = down v r
some_exponent (false, (v, suc k, r)) = up v r

abbrev pub read_exponent : List ℕ → Exponent
read_exponent [] = absent
read_exponent (c ∷ cs) =
    if nat_eq c 101 || nat_eq c 69 then some_exponent (signed_digits cs) else absent

-- n / d, a tie to the even one
abbrev pub nearest : ℕ → ℕ → ℕ
nearest n d =
    if ltb (2 * (n % d)) d
    then n / d
    else if ltb d (2 * (n % d))
    then n / d + 1
    else if nat_eq (n / d % 2) 0
    then n / d
    else n / d + 1

abbrev pub ticks : ℕ → ℕ → ℕ → ℕ → ℕ
ticks value count raised lowered = nearest (value * 10 ^ (4 + raised)) (10 ^ (count + lowered))

abbrev pub with_sign : Bool → ℕ → ℤ
with_sign true n = sub_ℕ 0 n
with_sign false n = pos n

pub data Number : Type 0 where
  int : ℤ → Number
  float : ℤ → Number

abbrev pub finish : Bool → Places → Exponent → Number × List ℕ
finish minus p absent =
    if p.is_float
    then (float (with_sign minus (ticks p.value p.count 0 0)), p.rest)
    else (int (with_sign minus p.value), p.rest)
finish minus p (up e r) = (float (with_sign minus (ticks p.value p.count e 0)), r)
finish minus p (down e r) = (float (with_sign minus (ticks p.value p.count 0 e)), r)

abbrev pub after_whole : Bool → Option (ℕ × List ℕ) → Option (Number × List ℕ)
after_whole minus none = none
after_whole minus (some (n, r)) =
    let p = read_places n r in some (finish minus p (read_exponent p.rest))

-- NaN and the infinities, which Python reads too, are not among the numbers here.
unfoldable pub read_number : List ℕ → Option (Number × List ℕ)
read_number [] = none
read_number (c ∷ cs) =
    if nat_eq c 45
    then after_whole true (read_whole cs)
    else after_whole false (read_whole (c ∷ cs))
