-- ===== src/Json/RoundTrip.antt =====
-- The reader of JSON strings on what the writer makes.
use mathlib.Core.List.{append_assoc}
use agentic_juggling.Prelude.{
  ℕ, ◌+◌, ◌-◌, ◌*◌, ◌/◌, ◌%◌, ◌<◌, true, false, ◌≡◌, refl, ◌∙◌, ap, Option, none, some, List, [],
  ◌∷◌, ◌++◌, arith, All, nat_eq, ltb, leb, ◌⊎◌, inl, inr, Bool-cases, Option-cases, ◌&&◌,
}
use agentic_juggling.Json.Text.{
  hex_digit, unicode_escape, short, high_of, low_of, long, escape_by, escape, escape_all, Mode,
  Step, numbered, is_high, hex_value, short_of, digit, step, emit, scan,
}

-- a Unicode scalar value
abbrev pub Scalar : ℕ → Type 0
Scalar c = (c < 55_296) ⊎ ((57_343 < c) × (c < 1_114_112))

-- what a step leads to
abbrev run_step : Step → List ℕ → Option (List ℕ × List ℕ)
run_step (Step.goes out m) cs = emit out (scan m cs)
run_step (Step.closes out) cs = some (out, cs)
run_step Step.fails cs = none

scan_cons : (m : Mode) (c : ℕ) (cs : List ℕ) → scan m (c ∷ cs) ≡ run_step (step m c) cs
unfolding scan
scan_cons m c cs = go (step m c)
  where
    go :
        (s : Step)
        → (elim s [
          | Step.goes out m' ↦ emit out (scan m' cs)
          | Step.closes out ↦ some (out, cs)
          | Step.fails ↦ none
        ])
          ≡ run_step s cs
    go (Step.goes out m') = refl
    go (Step.closes out) = refl
    go Step.fails = refl

emit_nil : (o : Option (List ℕ × List ℕ)) → emit [] o ≡ o
emit_nil none = refl
emit_nil (some (cs, rest)) = refl

scan_goes :
    (m m' : Mode) (c : ℕ) (out cs : List ℕ)
    → step m c ≡ Step.goes out m'
    → scan m (c ∷ cs) ≡ emit out (scan m' cs)
scan_goes m m' c out cs h = scan_cons m c cs ∙ ap (λ s. run_step s cs) h

hex_value-hex_digit : (d : ℕ) → d < 16 → hex_value (hex_digit d) ≡ some d
hex_value-hex_digit d h = ground arith

-- a digit that is not the last
hex_more :
    (h : Option ℕ) (more v d : ℕ) (cs : List ℕ)
    → d < 16
    → nat_eq more 1 ≡ false
    → scan (Mode.hex h more v) (hex_digit d ∷ cs) ≡ scan (Mode.hex h (more - 1) (16 * v + d)) cs
unfolding step
hex_more h more v d cs k l =
    scan_cons (Mode.hex h more v) (hex_digit d) cs
    ∙ ap (λ o. run_step (digit h more v o) cs) (hex_value-hex_digit d k)
    ∙ rw l (emit_nil (scan (Mode.hex h (more - 1) (16 * v + d)) cs))

hex_last :
    (h : Option ℕ) (v d : ℕ) (cs : List ℕ)
    → d < 16
    → scan (Mode.hex h 1 v) (hex_digit d ∷ cs) ≡ run_step (numbered h (16 * v + d)) cs
unfolding step
hex_last h v d cs k =
    scan_cons (Mode.hex h 1 v) (hex_digit d) cs
    ∙ ap (λ o. run_step (digit h 1 v o) cs) (hex_value-hex_digit d k)

-- four digits from their number
four :
    (v : ℕ)
    → v < 65_536
    → 16 * (16 * (16 * (16 * 0 + v / 4_096) + v / 256 % 16) + v / 16 % 16) + v % 16 ≡ v
four v h = omega arith

-- behind a backslash, the letter u and four digits
scan_number :
    (h : Option ℕ) (v : ℕ) (cs : List ℕ)
    → v < 65_536
    → scan (Mode.backslash h) (
        117
        ∷ hex_digit (v / 4_096)
        ∷ hex_digit (v / 256 % 16)
        ∷ hex_digit (v / 16 % 16)
        ∷ hex_digit (v % 16)
        ∷ cs)
      ≡ run_step (numbered h v) cs
scan_number h v cs k =
    scan_goes (Mode.backslash h) (Mode.hex h 4 0) 117 [] _ (unfold step in refl)
    ∙ emit_nil _
    ∙ hex_more h 4 0 (v / 4_096) _ (omega arith) refl
    ∙ hex_more h 3 _ (v / 256 % 16) _ (omega arith) refl
    ∙ hex_more h 2 _ (v / 16 % 16) _ (omega arith) refl
    ∙ hex_last h _ (v % 16) cs (omega arith)
    ∙ ap (λ n. run_step (numbered h n) cs) (four v k)

-- a backslash opens an escape
scan_backslash : (cs : List ℕ) → scan Mode.text (92 ∷ cs) ≡ scan (Mode.backslash none) cs
scan_backslash cs =
    scan_goes Mode.text (Mode.backslash none) 92 [] cs (unfold step in refl) ∙ emit_nil _

scan_pair : (h : ℕ) (cs : List ℕ) → scan (Mode.high h) (92 ∷ cs) ≡ scan (Mode.backslash (some h)) cs
scan_pair h cs =
    scan_goes (Mode.high h) (Mode.backslash (some h)) 92 [] cs (unfold step in refl) ∙ emit_nil _

short_back :
    (c : ℕ) {letter : ℕ}
    → short c ≡ some letter
    → (short_of letter ≡ some c) × (nat_eq letter 117 ≡ false)
short_back c h = ground arith

scan-short :
    (c letter : ℕ) (cs : List ℕ)
    → short c ≡ some letter
    → scan Mode.text (92 ∷ letter ∷ cs) ≡ emit (c ∷ []) (scan Mode.text cs)
scan-short c letter cs h =
    let (back, other) = short_back c h in
    scan_backslash (letter ∷ cs)
    ∙ scan_goes (Mode.backslash none) Mode.text letter (c ∷ []) cs
        (unfold step in rw (other, back) refl)

numbered_scalar : (v : ℕ) → is_high v ≡ false → numbered none v ≡ Step.goes (v ∷ []) Mode.text
numbered_scalar v h = rw h refl

numbered_pair :
    (c : ℕ)
    → 65_535 < c
    → c < 1_114_112
    → numbered (some (high_of c)) (low_of c) ≡ Step.goes (c ∷ []) Mode.text
numbered_pair c h k = ground arith

is_high-high_of : (c : ℕ) → 65_535 < c → c < 1_114_112 → is_high (high_of c) ≡ true
is_high-high_of c h k = ground arith

numbered_high : (v : ℕ) → is_high v ≡ true → numbered none v ≡ Step.goes [] (Mode.high v)
numbered_high v h = rw h refl

scan_surrogates :
    (c : ℕ) (cs : List ℕ)
    → 65_535 < c
    → c < 1_114_112
    → scan Mode.text (unicode_escape (high_of c) ++ unicode_escape (low_of c) ++ cs)
      ≡ emit (c ∷ []) (scan Mode.text cs)
scan_surrogates c cs h k =
    scan_backslash _
    ∙ scan_number none (high_of c) (unicode_escape (low_of c) ++ cs) (omega arith)
    ∙ ap (λ s. run_step s (unicode_escape (low_of c) ++ cs))
        (numbered_high (high_of c) (is_high-high_of c h k))
    ∙ emit_nil _
    ∙ scan_pair (high_of c) _
    ∙ scan_number (some (high_of c)) (low_of c) cs (omega arith)
    ∙ ap (λ s. run_step s cs) (numbered_pair c h k)

scan-long :
    (c : ℕ) (cs : List ℕ)
    → Scalar c
    → short c ≡ none
    → scan Mode.text (long c ++ cs) ≡ emit (c ∷ []) (scan Mode.text cs)
scan-long c cs h k = elim (Bool-cases (leb 32 c && leb c 126)) [
  | inl e ↦ rw e (scan_goes Mode.text Mode.text c (c ∷ []) cs (unfold step in ground arith))
  | inr e ↦ rw e (elim (Bool-cases (ltb c 65_536)) [
    | inl l ↦ rw l (
        scan_backslash _
        ∙ scan_number none c cs (ground arith)
        ∙ ap (λ s. run_step s cs) (numbered_scalar c (ground arith)))
    | inr l ↦ rw l (scan_surrogates c cs (ground arith) (ground arith))
  ])
]

scan-escape :
    (c : ℕ) (cs : List ℕ)
    → Scalar c
    → scan Mode.text (escape c ++ cs) ≡ emit (c ∷ []) (scan Mode.text cs)
unfolding escape
scan-escape c cs h = elim (Option-cases (short c)) [
  | inl e ↦ ap (λ o. scan Mode.text (escape_by o c ++ cs)) e ∙ scan-long c cs h e
  | inr (letter, e) ↦ ap (λ o. scan Mode.text (escape_by o c ++ cs)) e ∙ scan-short c letter cs e
]

emit_cons :
    (c : ℕ) (cs rest : List ℕ) (o : Option (List ℕ × List ℕ))
    → o ≡ some (cs, rest)
    → emit (c ∷ []) o ≡ some (c ∷ cs, rest)
emit_cons c cs rest o h = rw h refl

-- A string of Unicode scalar values is read back from its escaped form, up to the quote that follows it.
pub scan-escape_all :
    (cs rest : List ℕ)
    → All Scalar cs
    → scan Mode.text (escape_all cs ++ 34 ∷ rest) ≡ some (cs, rest)
unfolding escape_all
scan-escape_all [] rest h = scan_cons Mode.text 34 rest ∙ unfold step in refl
scan-escape_all (c ∷ cs) rest h =
    ap (scan Mode.text) (append_assoc (escape c) (escape_all cs) (34 ∷ rest))
    ∙ scan-escape c (escape_all cs ++ 34 ∷ rest) h.0
    ∙ emit_cons c cs rest _ (scan-escape_all cs rest h.1)
