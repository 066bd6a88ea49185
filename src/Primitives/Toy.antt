-- ===== src/Primitives/Toy.antt =====
-- A concrete instance of the primitives, on which the development can be run: what it assumes of the
-- packages can hold at once. A ciphertext here is the length of the associated data, that data and the
-- text, each number n written as n ones and a zero.
use agentic_juggling.Prelude.{
  true, ℕ, zero, suc, ◌+◌, ◌%◌, ◌<◌, ◌≡◌, ◌≢◌, refl, ap, ◌∙◌, sym, Option, none, some, [], ◌∷◌,
  ◌++◌, arith, length, replicate, length-replicate, nat_eq, if◌then◌else◌, Bool-cases, inl, inr,
}
use agentic_juggling.Codec.{IsBytes}
use agentic_juggling.Codec.Utf8.{utf8}
use agentic_juggling.Codec.Utf8.RoundTrip.{utf8_injective}
use agentic_juggling.Primitives.{Bytes, Primitives, Lawful, Authenticates}

tally : ℕ → Bytes → Bytes
tally zero bs = 0 ∷ bs
tally (suc n) bs = 1 ∷ tally n bs

encode : Bytes → Bytes
unfolding tally
encode [] = []
encode (n ∷ ns) = tally n (encode ns)

abbrev cons_some : ℕ → Option Bytes → Option Bytes
cons_some n none = none
cons_some n (some ns) = some (n ∷ ns)

decode_from : ℕ → Bytes → Option Bytes
decode_from k [] = some []
decode_from k (b ∷ bs) =
    let more = decode_from (suc k) bs in
    let next = cons_some k (decode_from 0 bs) in if nat_eq b 1 then more else next

decode_from-tally :
    (k n : ℕ) (bs : Bytes) → decode_from k (tally n bs) ≡ cons_some (k + n) (decode_from 0 bs)
unfolding decode_from tally
decode_from-tally k zero bs = ap (λ (m : ℕ). cons_some m (decode_from 0 bs)) (omega arith)
decode_from-tally k (suc n) bs =
    decode_from-tally (suc k) n bs ∙ ap (λ (m : ℕ). cons_some m (decode_from 0 bs)) (omega arith)

decode-encode : (bs : Bytes) → decode_from 0 (encode bs) ≡ some bs
unfolding decode_from encode
decode-encode [] = refl
decode-encode (n ∷ ns) =
    decode_from-tally 0 n (encode ns)
    ∙ (rw (decode-encode ns) (ap (λ (m : ℕ). some (m ∷ ns)) (omega arith)))

tally-IsBytes : (n : ℕ) (bs : Bytes) → IsBytes bs → IsBytes (tally n bs)
unfolding tally
tally-IsBytes zero bs h = (omega arith, h)
tally-IsBytes (suc n) bs h = (omega arith, tally-IsBytes n bs h)

encode-IsBytes : (bs : Bytes) → IsBytes (encode bs)
unfolding encode
encode-IsBytes [] = tt
encode-IsBytes (n ∷ ns) = tally-IsBytes n (encode ns) (encode-IsBytes ns)

-- `xs` without the prefix `p`
strip : Bytes → Bytes → Option Bytes
strip [] xs = some xs
strip (y ∷ ys) [] = none
strip (y ∷ ys) (x ∷ xs) = let rest = strip ys xs in if nat_eq y x then rest else none

strip-append : (ys xs : Bytes) → strip ys (ys ++ xs) ≡ some xs
unfolding strip
strip-append [] xs = refl
strip-append (y ∷ ys) xs = ground (arith, strip-append ys xs)

strip_other : (ys zs xs : Bytes) → length ys ≡ length zs → ys ≢ zs → strip ys (zs ++ xs) ≡ none
unfolding strip
strip_other [] [] xs h ne = absurd (ne refl)
strip_other [] (z ∷ zs) xs h ne = absurd (omega arith)
strip_other (y ∷ ys) [] xs h ne = absurd (omega arith)
strip_other (y ∷ ys) (z ∷ zs) xs h ne = elim (Bool-cases (nat_eq y z)) [
  | inl e ↦ rw e (strip_other ys zs xs (omega arith) (λ (q : ys ≡ zs). ne (ground arith)))
  | inr e ↦ rw e refl
]

abbrev tag : Option Bytes → Bytes
tag none = 0 ∷ []
tag (some a) = suc (length a) ∷ a

abbrev strip_decoded : Bytes → Option Bytes → Option Bytes
strip_decoded t none = none
strip_decoded t (some m) = strip t m

abbrev add_heads : Bytes → Bytes → Option Bytes
add_heads (x ∷ _) (y ∷ _) = some ((x + y) ∷ [])
add_heads _ _ = none

abbrev reduced : Bytes → Bytes
reduced [] = []
reduced (n ∷ ns) = n % 256 ∷ reduced ns

reduced-IsBytes : (bs : Bytes) → IsBytes (reduced bs)
reduced-IsBytes [] = tt
reduced-IsBytes (n ∷ ns) = (omega arith, reduced-IsBytes ns)

replicate-IsBytes : (n b : ℕ) → b < 256 → IsBytes (replicate n b)
replicate-IsBytes zero b h = tt
replicate-IsBytes (suc n) b h = (h, replicate-IsBytes n b h)

unfoldable pub toy : Primitives
unfolding encode decode_from strip
toy = record {
  urandom = λ n i. replicate n (i % 256);
  generate = λ i. i % 256 ∷ [];
  public_bytes = reduced;
  from_public_bytes = λ b. some b;
  exchange = add_heads;
  ties = λ m w i s id. true;
  derive = λ b. b;
  encrypt = λ k n m aad. encode (tag aad ++ m);
  decrypt = λ k n c aad. strip_decoded (tag aad) (decode_from 0 c);
}

pub toy-Lawful : Lawful toy
unfolding toy
toy-Lawful = record {
  urandom_length = λ n i. length-replicate n (i % 256);
  urandom-IsBytes = λ n i. replicate-IsBytes n (i % 256) (omega arith);
  public_bytes-IsBytes = reduced-IsBytes;
  encrypt-IsBytes = λ k n m aad. encode-IsBytes (tag aad ++ m);
  decrypt-encrypt = λ k n m aad. rw (decode-encode (tag aad ++ m)) (strip-append (tag aad) m);
  from_public_bytes_lem = λ i. refl;
  secret = λ i j. (i % 256 + j % 256 % 256) ∷ [];
  exchange_left = λ i j. refl;
  exchange_right = λ i j. ap (λ (m : ℕ). some (m ∷ [])) (omega arith);
}

tags_differ : (a b : Bytes) (m : Bytes) → a ≢ b → strip (tag (some b)) (tag (some a) ++ m) ≡ none
unfolding strip
tags_differ a b m ne = elim (Bool-cases (nat_eq (suc (length b)) (suc (length a)))) [
  | inl e ↦ rw e (strip_other b a m (ground arith) (λ (q : b ≡ a). ne (sym q)))
  | inr e ↦ rw e refl
]

pub toy-Authenticates : Authenticates toy
unfolding toy
toy-Authenticates k n m a b ne =
    rw (decode-encode (tag (some (utf8 a)) ++ m))
      (tags_differ (utf8 a) (utf8 b) m (λ (q : utf8 a ≡ utf8 b). ne (utf8_injective a b q)))
