-- ===== src/Pairing/Collisions.antt =====
-- `base58Encode` (internal/pairing/pairing.go) writes each chunk of eight bytes without padding, so
-- longer inputs cannot be told apart by their text.
use mathlib.Core.List.{reverse}
use relayly.Base.{
  ℕ, zero, suc, ◌+◌, ◌*◌, ◌/◌, ◌%◌, ◌<◌, ◌≡◌, refl, ◌≢◌, List, [], ◌∷◌, ◌++◌, arith, nat_eq,
  append-nil, ◌∙◌, sym, ap, ap₂, replicate, get_or,
}
use relayly.Pairing.{
  letter, leading_zeros, letters_of, rounds, big_endian, encode_chunks, base58_encode,
}

-- Eight bytes that stand for a number below 256.
abbrev pub chunk : ℕ → List ℕ
chunk n = 0 ∷ 0 ∷ 0 ∷ 0 ∷ 0 ∷ 0 ∷ 0 ∷ n ∷ []

big_endian-chunk : (n : ℕ) → big_endian (chunk n) ≡ n
unfolding big_endian
big_endian-chunk n = omega arith

letters_of-zero : (fuel : ℕ) → letters_of fuel 0 ≡ []
unfolding letters_of
letters_of-zero zero = refl
letters_of-zero (suc fuel) = refl

letters_of-pos :
    (fuel n : ℕ) → 0 < n → letters_of (suc fuel) n ≡ letter (n % 58) ∷ letters_of fuel (n / 58)
unfolding letters_of
letters_of-pos fuel n h = ground arith

letters_of-two :
    (fuel x y : ℕ)
    → x < 58
    → 0 < y
    → y < 58
    → letters_of (suc (suc fuel)) (x + 58 * y) ≡ letter x ∷ letter y ∷ []
letters_of-two fuel x y h k l =
    letters_of-pos (suc fuel) (x + 58 * y) (omega arith)
    ∙ ap₂ (λ i r. letter i ∷ r) (omega arith)
        (ap (letters_of (suc fuel)) (omega arith)
          ∙ letters_of-pos fuel y k
          ∙ ap₂ (λ i r. letter i ∷ r) (omega arith)
              (ap (letters_of fuel) (omega arith) ∙ letters_of-zero fuel))

letters_of-one : (fuel n : ℕ) → 0 < n → n < 58 → letters_of (suc fuel) n ≡ letter n ∷ []
letters_of-one fuel n h k =
    letters_of-pos fuel n h
    ∙ ap₂ (λ i r. letter i ∷ r) (omega arith)
        (ap (letters_of fuel) (omega arith) ∙ letters_of-zero fuel)

leading_zeros-chunks : (n : ℕ) (bs : List ℕ) → 0 < n → leading_zeros (chunk n ++ bs) ≡ 7
unfolding leading_zeros
leading_zeros-chunks n bs h = ground arith

encode_chunks-chunks :
    (m n : ℕ) → encode_chunks 16 (chunk m ++ chunk n) ≡ letters_of rounds m ++ letters_of rounds n
unfolding encode_chunks
encode_chunks-chunks m n = rw (big_endian-chunk m, big_endian-chunk n) (rw append-nil refl)

-- Two digits in two chunks have the same text as the number of those two digits in one chunk with a
-- chunk of zeros after it: different tokens of sixteen bytes may be written alike.
pub base58_encode_collides :
    (x y : ℕ)
    → 0 < x
    → x < 58
    → 0 < y
    → x + 58 * y < 256
    → (base58_encode (chunk x ++ chunk y) ≡ base58_encode (chunk (x + 58 * y) ++ chunk 0))
      × (chunk x ++ chunk y ≢ chunk (x + 58 * y) ++ chunk 0)
unfolding base58_encode
base58_encode_collides x y h k l m = (
  ap₂ (λ ls z. reverse (ls ++ replicate z (letter 0)))
      (encode_chunks-chunks x y
        ∙ rw
            (
              letters_of-one 10 x h k,
              letters_of-one 10 y l (omega arith),
              letters_of-zero 11,
              append-nil,
            )
            (sym (letters_of-two 9 x y k l (omega arith)))
        ∙ sym (encode_chunks-chunks (x + 58 * y) 0))
      (leading_zeros-chunks x (chunk y) h
        ∙ sym (leading_zeros-chunks (x + 58 * y) (chunk 0) (omega arith))),
  λ e. omega (arith, ap (λ ls. get_or ls 15 0) e),
)
