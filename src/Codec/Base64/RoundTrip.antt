-- ===== src/Codec/Base64/RoundTrip.antt =====
-- base64: what is written is read back.
use Prim.Native.Char.{code}
use agentic_juggling.Prelude.{
  ℕ, zero, suc, ◌+◌, ◌*◌, ◌/◌, ◌%◌, ◌<◌, Bool, true, false, not, ◌&&◌, ◌≡◌, refl, ap, Option, none,
  some, List, [], ◌∷◌, ltb, nat_eq, all_of, arith,
}
use agentic_juggling.Prelude.Unicode.{codes}
use agentic_juggling.Codec.{Bytes, IsBytes}
use agentic_juggling.Codec.Base64.{
  symbol, value, b64e, Quad, Step, step, take_value, pad, put_out, decode, b64d,
}

-- n - 1 down to 0
abbrev below : ℕ → List ℕ
below zero = []
below (suc k) = k ∷ below k

table_entry :
    (test : ℕ → Bool) (k : ℕ) {v : ℕ} → v < k → all_of test (below k) ≡ true → test v ≡ true
table_entry test zero {v} lt passed = absurd (omega arith)
table_entry test (suc k) {v} lt passed = ground (arith, table_entry test k {v = v})

abbrev is_value : ℕ → Option ℕ → Bool
is_value v none = false
is_value v (some w) = nat_eq v w

is_value_sound : (v : ℕ) (o : Option ℕ) → is_value v o ≡ true → o ≡ some v
is_value_sound v none h = cc
is_value_sound v (some w) h = ground arith

-- a symbol is ASCII, is not `=`, and stands for its six bits
reads_back : ℕ → Bool
reads_back v = let c = code (symbol v) in is_value v (value c) && (ltb c 128 && not (nat_eq c 61))

symbol_table : all_of reads_back (below 64) ≡ true
unfolding reads_back symbol value
symbol_table = refl

record Reads (v : ℕ) : Type 0 where
  reads : value (code (symbol v)) ≡ some v
  ascii : ltb (code (symbol v)) 128 ≡ true
  no_pad : nat_eq (code (symbol v)) 61 ≡ false

symbol_lem : (v : ℕ) → v < 64 → Reads v
unfolding reads_back
symbol_lem v h =
    let t = table_entry reads_back 64 h symbol_table in
    record {
      reads = is_value_sound v _ (ground (arith, t));
      ascii = ground (arith, t);
      no_pad = ground (arith, t);
    }

abbrev run_step : Step → List ℕ → Option Bytes
run_step (Step.goes out q) cs = put_out out (decode q cs)
run_step Step.stops cs = some []

decode_cons : (q : Quad) (c : ℕ) (cs : List ℕ) → decode q (c ∷ cs) ≡ run_step (step q c) cs
unfolding decode
decode_cons q c cs = go (step q c)
  where
    go :
        (s : Step)
        → (elim s [ Step.goes out q' ↦ put_out out (decode q' cs) | Step.stops ↦ some [] ])
          ≡ run_step s cs
    go (Step.goes out q') = refl
    go Step.stops = refl

decode-symbol :
    (q : Quad) (v : ℕ) (cs : List ℕ)
    → v < 64
    → decode q (code (symbol v) ∷ cs) ≡ run_step (take_value q (some v)) cs
unfolding step
decode-symbol q v cs h = let r = symbol_lem v h in rw (decode_cons, r.no_pad, r.reads) refl

decode-pad : (q : Quad) (cs : List ℕ) → decode q (61 ∷ cs) ≡ run_step (pad q) cs
unfolding step
decode-pad q cs = decode_cons q 61 cs

decode-b64e : (bs : Bytes) → IsBytes bs → decode Quad.start (codes (b64e bs)) ≡ some bs
unfolding b64e
decode-b64e [] h = unfold decode in refl
decode-b64e (a ∷ []) h = rw (decode-symbol Quad.start (a / 4) _ (omega arith)) (
    rw (decode-symbol (Quad.one (a / 4)) (a % 4 * 16) _ (omega arith)) (
      rw (decode-pad (Quad.two _) _)
        (rw (decode-pad (Quad.padded _) _) (ap (λ (x : ℕ). some (x ∷ [])) (omega arith)))))
decode-b64e (a ∷ b ∷ []) h = rw (decode-symbol Quad.start (a / 4) _ (omega arith)) (
    rw (decode-symbol (Quad.one (a / 4)) (a % 4 * 16 + b / 16) _ (omega arith)) (
      rw (decode-symbol (Quad.two _) (b % 16 * 4) _ (omega arith))
        (rw (decode-pad (Quad.three _) _) (ground arith))))
decode-b64e (a ∷ b ∷ c ∷ rest) h = rw (decode-symbol Quad.start (a / 4) _ (omega arith)) (
    rw (decode-symbol (Quad.one (a / 4)) (a % 4 * 16 + b / 16) _ (omega arith)) (
      rw (decode-symbol (Quad.two _) (b % 16 * 4 + c / 64) _ (omega arith)) (
        rw (decode-symbol (Quad.three _) (c % 64) _ (omega arith))
          (rw (decode-b64e rest h.1.1.1) (ground arith)))))

b64e-ascii : (bs : Bytes) → IsBytes bs → all_of (λ c. ltb c 128) (codes (b64e bs)) ≡ true
unfolding b64e
b64e-ascii [] h = refl
b64e-ascii (a ∷ []) h =
    rw ((symbol_lem (a / 4) (omega arith)).ascii)
      (rw ((symbol_lem (a % 4 * 16) (omega arith)).ascii))
b64e-ascii (a ∷ b ∷ []) h = rw ((symbol_lem (a / 4) (omega arith)).ascii) (
    rw ((symbol_lem (a % 4 * 16 + b / 16) (omega arith)).ascii)
      (rw ((symbol_lem (b % 16 * 4) (omega arith)).ascii)))
b64e-ascii (a ∷ b ∷ c ∷ rest) h = rw ((symbol_lem (a / 4) (omega arith)).ascii) (
    rw ((symbol_lem (a % 4 * 16 + b / 16) (omega arith)).ascii) (
      rw ((symbol_lem (b % 16 * 4 + c / 64) (omega arith)).ascii)
        (rw ((symbol_lem (c % 64) (omega arith)).ascii) (b64e-ascii rest h.1.1.1))))

-- What is sent in base64 arrives: every string of bytes that `_b64e` writes is read back by `_b64d`, as it was.
pub b64d-b64e : (bs : Bytes) → IsBytes bs → b64d (b64e bs) ≡ some bs
unfolding b64d
b64d-b64e bs h = rw (b64e-ascii bs h) (decode-b64e bs h)
