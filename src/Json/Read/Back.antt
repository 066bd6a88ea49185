-- ===== src/Json/Read/Back.antt =====
-- A document that is written as a text is read back from it.
use agentic_juggling.Prelude.{
  ℕ, zero, suc, ◌+◌, ◌<◌, ◌≤◌, true, false, ◌≡◌, refl, ◌∙◌, ap, none, some, List, [], ◌∷◌, String,
  nat_eq, arith, length,
}
use agentic_juggling.Json.{
  Json, Items, Fields, null, flag, int, num, str, arr, obj, nil, cons, end, field,
}
use agentic_juggling.Json.Number.{write_int, write_float}
use agentic_juggling.Json.Number.Digits.{Stops}
use agentic_juggling.Json.Number.Back.{
  write_int_head, write_float_head, read_number-write_int, read_number-write_float,
}
use agentic_juggling.Json.Write.{write, more_items, more_fields, quoted, dumps}
use agentic_juggling.Json.Write.Length.{size, size_items, size_fields, size-write}
use agentic_juggling.Json.Read.{
  Parsed, on_value, read_items, read_fields, with_item, with_value, with_key, open_items, by_kind,
  of_number, value, alone, loads, get, put,
}
use agentic_juggling.Json.Read.Starts.{Solid, write-Solid, skip-write, value_number}
use agentic_juggling.Json.Read.Strings.{read_string-codes, read_key-quoted}

-- no object has a key twice
abbrev mutual
  pub Distinct : Json → Type 0
  Distinct null = Unit
  Distinct (flag b) = Unit
  Distinct (int z) = Unit
  Distinct (num z) = Unit
  Distinct (str s) = Unit
  Distinct (arr xs) = DistinctItems xs
  Distinct (obj fs) = DistinctFields fs

  pub DistinctItems : Items → Type 0
  DistinctItems nil = Unit
  DistinctItems (cons x xs) = Distinct x × DistinctItems xs

  pub DistinctFields : Fields → Type 0
  DistinctFields end = Unit
  DistinctFields (field k v fs) = (get k fs ≡ none) × (Distinct v × DistinctFields fs)

more_items-Stops : (xs : Items) (out : List ℕ) → Stops (more_items xs out)
unfolding write
more_items-Stops nil out = refl
more_items-Stops (cons x xs) out = refl

more_fields-Stops : (fs : Fields) (out : List ℕ) → Stops (more_fields fs out)
unfolding write
more_fields-Stops end out = refl
more_fields-Stops (field k v fs) out = refl

module _ (v : List ℕ → Parsed Json) where
  abbrev Reads : Json → Type 0
  Reads j = (out : List ℕ) → Stops out → v (write j out) ≡ some (j, out)

  abbrev EachItem : Items → Type 0
  EachItem nil = Unit
  EachItem (cons x xs) = Reads x × EachItem xs

  abbrev EachField : Fields → Type 0
  EachField end = Unit
  EachField (field k j fs) = Reads j × EachField fs

  read_items-more_items :
      (x : Json) (xs : Items) (fuel : ℕ) (out : List ℕ)
      → size_items (cons x xs) ≤ fuel
      → Reads x
      → EachItem xs
      → read_items v fuel (write x (more_items xs out)) ≡ some (cons x xs, out)
  unfolding read_items write
  read_items-more_items x xs zero out h r rs = absurd (omega arith)
  read_items-more_items x nil (suc fuel) out h r rs =
      ap (with_item (read_items v fuel)) (r (more_items nil out) (more_items-Stops nil out))
  read_items-more_items x (cons y ys) (suc fuel) out h r rs =
      ap (with_item (read_items v fuel))
        (r (more_items (cons y ys) out) (more_items-Stops (cons y ys) out))
      ∙ ap (λ cs. on_value (cons x) (read_items v fuel cs)) (skip-write y (more_items ys out))
      ∙ ap (on_value (cons x)) (read_items-more_items y ys fuel out (omega arith) rs.0 rs.1)

  put_new : (k : String) (j : Json) (fs : Fields) → get k fs ≡ none → put k j fs ≡ field k j fs
  put_new k j fs h = rw (h, put) refl

  read_fields-more_fields :
      (k : String) (j : Json) (fs : Fields) (fuel : ℕ) (out : List ℕ)
      → size_fields (field k j fs) ≤ fuel
      → DistinctFields (field k j fs)
      → Reads j
      → EachField fs
      → read_fields v fuel (quoted k (58 ∷ 32 ∷ write j (more_fields fs out)))
        ≡ some (field k j fs, out)
  unfolding read_fields write
  read_fields-more_fields k j fs zero out h d r rs = absurd (omega arith)
  read_fields-more_fields k j end (suc fuel) out h d r rs =
      ap (with_key v (read_fields v fuel)) (
        read_key-quoted k (write j (more_fields end out))
        ∙ ap (λ cs. some (k, cs)) (skip-write j (more_fields end out)))
      ∙ ap (with_value (read_fields v fuel) k) (r (more_fields end out) (more_fields-Stops end out))
  read_fields-more_fields k j (field l i fs) (suc fuel) out h d r rs =
      ap (with_key v (read_fields v fuel)) (
        read_key-quoted k (write j (more_fields (field l i fs) out))
        ∙ ap (λ cs. some (k, cs)) (skip-write j (more_fields (field l i fs) out)))
      ∙ ap (with_value (read_fields v fuel) k)
          (r (more_fields (field l i fs) out) (more_fields-Stops (field l i fs) out))
      ∙ unfold write in
        ap (on_value (put k j))
          (read_fields-more_fields l i fs fuel out (omega arith) d.1.1 rs.0 rs.1)
        ∙ ap (λ all. some (all, out)) (put_new k j (field l i fs) d.0)

  open_items-Solid :
      (fuel : ℕ) (cs : List ℕ) → Solid cs → open_items v fuel cs ≡ read_items v fuel cs
  open_items-Solid fuel [] (c, rest, e, h) = absurd (cc)
  open_items-Solid fuel (x ∷ xs) (c, rest, e, h) =
      let same : x ≡ c = cc in
      let unclosed : nat_eq x 93 ≡ false = ground (arith, same, h) in rw unclosed refl

array :
    (fuel : ℕ) (x : Json) (xs : Items) (out : List ℕ)
    → size_items (cons x xs) ≤ fuel
    → Reads (value fuel) x
    → EachItem (value fuel) xs
    → value (suc fuel) (write (arr (cons x xs)) out) ≡ some (arr (cons x xs), out)
unfolding value by_kind write
array fuel x xs out h r rs =
    ap (λ cs. on_value arr (open_items (value fuel) fuel cs)) (skip-write x (more_items xs out))
    ∙ ap (on_value arr) (
        open_items-Solid (value fuel) fuel (write x (more_items xs out))
          (write-Solid x (more_items xs out))
        ∙ read_items-more_items (value fuel) x xs fuel out h r rs)

object :
    (fuel : ℕ) (k : String) (j : Json) (fs : Fields) (out : List ℕ)
    → size_fields (field k j fs) ≤ fuel
    → DistinctFields (field k j fs)
    → Reads (value fuel) j
    → EachField (value fuel) fs
    → value (suc fuel) (write (obj (field k j fs)) out) ≡ some (obj (field k j fs), out)
unfolding value by_kind write
object fuel k j fs out h d r rs =
    ap (on_value obj) (read_fields-more_fields (value fuel) k j fs fuel out h d r rs)

mutual
  unfolding value by_kind write

  value_back :
      (fuel : ℕ) (j : Json)
      → size j < fuel
      → Distinct j
      → (out : List ℕ) → Stops out
      → value fuel (write j out) ≡ some (j, out)
  value_back zero j h d out s = absurd (omega arith)
  value_back (suc fuel) null h d out s = refl
  value_back (suc fuel) (flag true) h d out s = refl
  value_back (suc fuel) (flag false) h d out s = refl
  value_back (suc fuel) (int z) h d out s =
      let (c, cs, e, b) = write_int_head z out in
      value_number fuel (write_int z out) cs c e b
      ∙ ap (on_value of_number) (read_number-write_int z out s)
  value_back (suc fuel) (num z) h d out s =
      let (c, cs, e, b) = write_float_head z out in
      value_number fuel (write_float z out) cs c e b
      ∙ ap (on_value of_number) (read_number-write_float z out s)
  value_back (suc fuel) (str t) h d out s = ap (on_value str) (read_string-codes t out)
  value_back (suc fuel) (arr nil) h d out s = refl
  value_back (suc fuel) (arr (cons x xs)) h d out s =
      array fuel x xs out (omega arith) (value_back fuel x (omega arith) d.0)
        (items_back fuel xs (omega arith) d.1)
  value_back (suc fuel) (obj end) h d out s = refl
  value_back (suc fuel) (obj (field k v fs)) h d out s =
      object fuel k v fs out (omega arith) d (value_back fuel v (omega arith) d.1.0)
        (fields_back fuel fs (omega arith) d.1.1)

  items_back :
      (fuel : ℕ) (xs : Items) → size_items xs ≤ fuel → DistinctItems xs → EachItem (value fuel) xs
  items_back fuel nil h d = tt
  items_back fuel (cons x xs) h d =
      (value_back fuel x (omega arith) d.0, items_back fuel xs (omega arith) d.1)

  fields_back :
      (fuel : ℕ) (fs : Fields)
      → size_fields fs ≤ fuel
      → DistinctFields fs
      → EachField (value fuel) fs
  fields_back fuel end h d = tt
  fields_back fuel (field k v fs) h d =
      (value_back fuel v (omega arith) d.1.0, fields_back fuel fs (omega arith) d.1.1)

-- `json.loads` gives a document back from the text that `json.dumps` wrote of it, where no object
-- of it has a key twice, as no `dict` has.
pub loads-dumps : (j : Json) → Distinct j → loads (dumps j) ≡ some j
unfolding loads dumps
loads-dumps j d =
    ap (λ cs. alone (value (length (write j []) + 1) cs)) (skip-write j [])
    ∙ ap alone (value_back (length (write j []) + 1) j (omega (arith, size-write j [])) d [] tt)
