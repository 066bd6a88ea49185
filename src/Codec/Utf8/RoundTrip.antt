-- ===== src/Codec/Utf8/RoundTrip.antt =====
-- UTF-8: what is encoded is decoded again, and is made of bytes.
use Prim.Native.Char.{code}
use agentic_juggling.Prelude.{
  ℕ, ◌+◌, ◌-◌, ◌*◌, ◌/◌, ◌%◌, ◌<◌, ◌≤◌, ◌≡◌, refl, ap, ◌∙◌, sym, Option, none, some, ◌∷◌, ◌++◌,
  String, ltb, arith, Bool-cases, inl, inr,
}
use agentic_juggling.Codec.{Bytes, IsBytes, to_char, to_char-code, code-lt}
use agentic_juggling.Codec.Utf8.{encoded, utf8, Mode, Step, step, cons_char, decode, text}

abbrev run_step : Step → Bytes → Option String
run_step (Step.goes m) bs = decode m bs
run_step (Step.emits n) bs = cons_char (to_char n) (decode Mode.between bs)
run_step Step.fails bs = none

decode_cons : (m : Mode) (b : ℕ) (bs : Bytes) → decode m (b ∷ bs) ≡ run_step (step m b) bs
unfolding decode
decode_cons m b bs = go (step m b)
  where
    go :
        (s : Step)
        → (elim s [
          | Step.goes m' ↦ decode m' bs
          | Step.emits n ↦ cons_char (to_char n) (decode Mode.between bs)
          | Step.fails ↦ none
        ])
          ≡ run_step s bs
    go (Step.goes m') = refl
    go (Step.emits n) = refl
    go Step.fails = refl

-- one step that is known
decode-step :
    (m : Mode) (b : ℕ) (bs : Bytes) (s : Step) → step m b ≡ s → decode m (b ∷ bs) ≡ run_step s bs
decode-step m b bs s h = decode_cons m b bs ∙ ap (λ t. run_step t bs) h

-- a byte that is neither the first nor the last of its character
decode_inner :
    (more least acc d : ℕ) (bs : Bytes)
    → 1 < more
    → d < 64
    → decode (Mode.within more least acc) ((128 + d) ∷ bs)
      ≡ decode (Mode.within (more - 1) least (64 * acc + d)) bs
unfolding step
decode_inner more least acc d bs h k =
    decode-step _ _ _ (Step.goes (Mode.within (more - 1) least (64 * acc + d))) (ground arith)

decode_last :
    (least acc d : ℕ) (bs : Bytes)
    → least ≤ 64 * acc + d
    → d < 64
    → decode (Mode.within 1 least acc) ((128 + d) ∷ bs)
      ≡ cons_char (to_char (64 * acc + d)) (decode Mode.between bs)
unfolding step
decode_last least acc d bs h k = decode-step _ _ _ (Step.emits (64 * acc + d)) (ground arith)

-- the first byte
decode_lead :
    (b : ℕ) (s : Step) (bs : Bytes)
    → step Mode.between b ≡ s
    → decode Mode.between (b ∷ bs) ≡ run_step s bs
decode_lead b s bs h = decode-step Mode.between b bs s h

decode_two :
    (n : ℕ) (bs : Bytes)
    → 128 ≤ n
    → n < 2_048
    → decode Mode.between ((192 + n / 64) ∷ (128 + n % 64) ∷ bs)
      ≡ cons_char (to_char n) (decode Mode.between bs)
decode_two n bs h k =
    decode_lead (192 + n / 64) (Step.goes (Mode.within 1 128 (n / 64))) _
      (unfold step in ground arith)
    ∙ decode_last 128 (n / 64) (n % 64) bs (omega arith) (omega arith)
    ∙ ap (λ (x : ℕ). cons_char (to_char x) (decode Mode.between bs)) (omega arith)

decode_three :
    (n : ℕ) (bs : Bytes)
    → 2_048 ≤ n
    → n < 65_536
    → decode Mode.between ((224 + n / 4_096) ∷ (128 + n / 64 % 64) ∷ (128 + n % 64) ∷ bs)
      ≡ cons_char (to_char n) (decode Mode.between bs)
decode_three n bs h k =
    decode_lead (224 + n / 4_096) (Step.goes (Mode.within 2 2_048 (n / 4_096))) _
      (unfold step in ground arith)
    ∙ decode_inner 2 2_048 (n / 4_096) (n / 64 % 64) _ (omega arith) (omega arith)
    ∙ decode_last 2_048 (64 * (n / 4_096) + n / 64 % 64) (n % 64) bs (omega arith) (omega arith)
    ∙ ap (λ (x : ℕ). cons_char (to_char x) (decode Mode.between bs)) (omega arith)

decode_four :
    (n : ℕ) (bs : Bytes)
    → 65_536 ≤ n
    → n < 1_114_112
    → decode Mode.between
        ((240 + n / 262_144) ∷ (128 + n / 4_096 % 64) ∷ (128 + n / 64 % 64) ∷ (128 + n % 64) ∷ bs)
      ≡ cons_char (to_char n) (decode Mode.between bs)
decode_four n bs h k =
    decode_lead (240 + n / 262_144) (Step.goes (Mode.within 3 65_536 (n / 262_144))) _
      (unfold step in ground arith)
    ∙ decode_inner 3 65_536 (n / 262_144) (n / 4_096 % 64) _ (omega arith) (omega arith)
    ∙ decode_inner 2 65_536 (64 * (n / 262_144) + n / 4_096 % 64) (n / 64 % 64) _ (omega arith)
        (omega arith)
    ∙ decode_last 65_536 (64 * (64 * (n / 262_144) + n / 4_096 % 64) + n / 64 % 64) (n % 64) bs
        (omega arith) (omega arith)
    ∙ ap (λ (x : ℕ). cons_char (to_char x) (decode Mode.between bs)) (omega arith)

decode-encoded :
    (n : ℕ) (bs : Bytes)
    → n < 1_114_112
    → decode Mode.between (encoded n ++ bs) ≡ cons_char (to_char n) (decode Mode.between bs)
unfolding encoded
decode-encoded n bs h = elim (Bool-cases (ltb n 128)) [
  | inl e ↦ rw e (decode_lead n (Step.emits n) bs (unfold step in ground arith))
  | inr e ↦ rw e (elim (Bool-cases (ltb n 2_048)) [
    | inl f ↦ rw f (decode_two n bs (ground arith) (ground arith))
    | inr f ↦ rw f (elim (Bool-cases (ltb n 65_536)) [
      | inl g ↦ rw g (decode_three n bs (ground arith) (ground arith))
      | inr g ↦ rw g (decode_four n bs (ground arith) h)
    ])
  ])
]

-- Every text that is encoded is decoded to itself.
pub text-utf8 : (s : String) → text (utf8 s) ≡ some s
unfolding text utf8
text-utf8 String.[] = unfold decode in refl
text-utf8 (String.◌∷◌ c s) =
    decode-encoded (code c) (utf8 s) (code-lt c) ∙ rw (to_char-code c, text-utf8 s) refl

encoded-IsBytes : (n : ℕ) (bs : Bytes) → n < 1_114_112 → IsBytes bs → IsBytes (encoded n ++ bs)
unfolding encoded
encoded-IsBytes n bs h k = elim (Bool-cases (ltb n 128)) [
  | inl e ↦ rw e (ground arith, k)
  | inr e ↦ rw e (elim (Bool-cases (ltb n 2_048)) [
    | inl f ↦ rw f (ground arith, (omega arith, k))
    | inr f ↦ rw f (elim (Bool-cases (ltb n 65_536)) [
      | inl g ↦ rw g (ground arith, (omega arith, (omega arith, k)))
      | inr g ↦ rw g (omega arith, (omega arith, (omega arith, (omega arith, k))))
    ])
  ])
]

pub utf8-IsBytes : (s : String) → IsBytes (utf8 s)
unfolding utf8
utf8-IsBytes String.[] = tt
utf8-IsBytes (String.◌∷◌ c s) = encoded-IsBytes (code c) (utf8 s) (code-lt c) (utf8-IsBytes s)

some_injective : {a b : String} → some a ≡ some b → a ≡ b
some_injective q = cc

pub utf8_injective : (a b : String) → utf8 a ≡ utf8 b → a ≡ b
utf8_injective a b h = some_injective (sym (text-utf8 a) ∙ (ap text h ∙ text-utf8 b))
