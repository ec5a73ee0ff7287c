-- ===== src/Pairing/Alphabet.antt =====
-- The output of `base58Encode` (internal/pairing/pairing.go): what letters and how many, and that
-- a single chunk can be read back.
use mathlib.Core.List.{reverse, reverse-cons, reverse-reverse, foldl}
use native.Mathlib.Nat.{pow-suc, pow-le-pow_right, mul_comm, mul_assoc}
use relayly.Base.{
  ℕ, zero, suc, ◌+◌, ◌*◌, ◌/◌, ◌%◌, ◌≤◌, ◌<◌, ◌≡◌, refl, ap, Bool, true, false, Option, none, some,
  List, [], ◌∷◌, ◌++◌, arith, All, All-append, length, take, drop, replicate, ◌==◌, nat_eq,
  if◌then◌else◌, is_some, ◌^◌, append-nil, Bool-cases, inl, inr,
}
use relayly.Pairing.{
  base58_alphabet, letter, leading_zeros, letters_of, rounds, big_endian, encode_chunks,
  base58_encode,
}

-- The position of a letter.
unfoldable pub index_of : ℕ → List ℕ → Option ℕ
index_of c [] = none
index_of c (a ∷ rest) =
    let later = index_of c rest in
    if a == c then some 0 else elim later [ none ↦ none | some i ↦ some (suc i) ]

-- Whether a test holds of every number below a bound.
holds_below : ℕ → (ℕ → Bool) → Bool
holds_below zero test = true
holds_below (suc last) test = if test last then holds_below last test else false

holds_below-at :
    (bound : ℕ) (test : ℕ → Bool) (i : ℕ)
    → holds_below bound test ≡ true
    → i < bound
    → test i ≡ true
unfolding holds_below
holds_below-at zero test i h lt = absurd (omega arith)
holds_below-at (suc last) test i h lt = ground (arith, holds_below-at last test i)

found_at : ℕ → Bool
unfolding index_of
found_at i = elim (index_of (letter i) base58_alphabet) [ none ↦ false | some j ↦ j == i ]

index_table : holds_below 58 found_at ≡ true
unfolding holds_below found_at letter
index_table = refl

index_of-letter : (i : ℕ) → i < 58 → index_of (letter i) base58_alphabet ≡ some i
unfolding found_at
index_of-letter i h = ground (arith, holds_below-at 58 found_at i index_table)

-- What a list of letters stands for, the lowest digit first.
unfoldable pub value_of : List ℕ → Option ℕ
value_of [] = some 0
value_of (c ∷ cs) = elim (index_of c base58_alphabet) [
  | none ↦ none
  | some i ↦ elim (value_of cs) [ none ↦ none | some v ↦ some (i + 58 * v) ]
]

value_of-letters_of : (fuel n : ℕ) → n < 58 ^ fuel → value_of (letters_of fuel n) ≡ some n
unfolding value_of letters_of
value_of-letters_of zero n h = ap some (omega arith)
value_of-letters_of (suc fuel) n h =
    ground (arith, index_of-letter (n % 58), pow-suc 58 fuel, value_of-letters_of fuel (n / 58))

value_of-append_zeros :
    (xs : List ℕ) (z : ℕ) → value_of (xs ++ replicate z (letter 0)) ≡ value_of xs
unfolding value_of
value_of-append_zeros [] zero = refl
value_of-append_zeros [] (suc z) = ground (arith, index_of-letter 0, value_of-append_zeros [] z)
value_of-append_zeros (x ∷ xs) z = ground (arith, value_of-append_zeros xs z)

big_endian-lt :
    (bs : List ℕ) (n bound : ℕ)
    → n < bound
    → All (λ b. b < 256) bs
    → foldl (λ m b. m * 256 + b) n bs < bound * 256 ^ length bs
big_endian-lt [] n bound h v = omega arith
big_endian-lt (b ∷ bs) n bound h v =
    rw
      (
        pow-suc 256 (length bs),
        mul_comm (256 ^ length bs) 256,
        ← mul_assoc bound 256 (256 ^ length bs),
      )
      (big_endian-lt bs (n * 256 + b) (bound * 256) (omega (arith, v.0)) v.1)

big_endian-le : (bs : List ℕ) → length bs ≤ 8 → All (λ b. b < 256) bs → big_endian bs < 58 ^ rounds
unfolding big_endian
big_endian-le bs h v = omega (
  arith,
  big_endian-lt bs 0 1 (omega arith) v,
  pow-le-pow_right {n = 256} (omega arith) {i = length bs} {j = 8} h,
)

take_all : (n : ℕ) (xs : List ℕ) → length xs ≤ n → (take n xs ≡ xs) × (drop n xs ≡ [])
take_all zero [] h = (refl, refl)
take_all zero (x ∷ xs) h = absurd (omega arith)
take_all (suc n) [] h = (refl, refl)
take_all (suc n) (x ∷ xs) h = let (t, d) = take_all n xs (omega arith) in (ap (◌∷◌ x) t, d)

encode_chunks-nil : (fuel : ℕ) → encode_chunks fuel [] ≡ []
unfolding encode_chunks
encode_chunks-nil zero = refl
encode_chunks-nil (suc fuel) = refl

encode_chunks_one :
    (bs : List ℕ) → length bs ≤ 8 → encode_chunks (length bs) bs ≡ letters_of rounds (big_endian bs)
unfolding encode_chunks letters_of big_endian
encode_chunks_one [] h = refl
encode_chunks_one (b ∷ bs) h =
    let (t, d) = take_all 8 (b ∷ bs) h in rw (t, d, encode_chunks-nil (length bs)) (append-nil _)

-- What is made of at most eight bytes reads back, from its last letter to its first, as the number
-- that the bytes stand for.
pub value_of-base58_encode :
    (input : List ℕ)
    → length input ≤ 8
    → All (λ b. b < 256) input
    → value_of (reverse (base58_encode input)) ≡ some (big_endian input)
unfolding base58_encode
value_of-base58_encode input h v =
    rw
      (
        reverse-reverse
            (encode_chunks (length input) input ++ replicate (leading_zeros input) (letter 0)),
        value_of-append_zeros (encode_chunks (length input) input) (leading_zeros input),
        encode_chunks_one input h,
      )
      (value_of-letters_of rounds (big_endian input) (big_endian-le input h v))

abbrev pub IsLetter : ℕ → Type 0
IsLetter c = is_some (index_of c base58_alphabet) ≡ true

letter-IsLetter : (i : ℕ) → i < 58 → IsLetter (letter i)
letter-IsLetter i h = ap is_some (index_of-letter i h)

letters_of-IsLetter : (fuel n : ℕ) → All IsLetter (letters_of fuel n)
unfolding letters_of
letters_of-IsLetter zero n = tt
letters_of-IsLetter (suc fuel) n = elim (Bool-cases (n == 0)) [
  | inl e ↦ rw e tt
  | inr e ↦ rw e (letter-IsLetter (n % 58) (omega arith), letters_of-IsLetter fuel (n / 58))
]

encode_chunks-IsLetter : (fuel : ℕ) (input : List ℕ) → All IsLetter (encode_chunks fuel input)
unfolding encode_chunks
encode_chunks-IsLetter zero input = tt
encode_chunks-IsLetter (suc fuel) [] = tt
encode_chunks-IsLetter (suc fuel) (b ∷ bs) =
    All-append IsLetter _ _ (letters_of-IsLetter rounds (big_endian (take 8 (b ∷ bs))))
      (encode_chunks-IsLetter fuel (drop 8 (b ∷ bs)))

replicate-IsLetter : (n : ℕ) → All IsLetter (replicate n (letter 0))
replicate-IsLetter zero = tt
replicate-IsLetter (suc n) = (letter-IsLetter 0 (omega arith), replicate-IsLetter n)

reverse-IsLetter : (xs : List ℕ) → All IsLetter xs → All IsLetter (reverse xs)
reverse-IsLetter [] h = tt
reverse-IsLetter (x ∷ xs) h =
    rw (reverse-cons x xs)
      (All-append IsLetter (reverse xs) (x ∷ []) (reverse-IsLetter xs h.1) (h.0, tt))

-- Every letter of a token is one of the alphabet.
pub base58_encode-IsLetter : (input : List ℕ) → All IsLetter (base58_encode input)
unfolding base58_encode
base58_encode-IsLetter input = reverse-IsLetter _ (
    All-append IsLetter _ _ (encode_chunks-IsLetter (length input) input)
      (replicate-IsLetter (leading_zeros input)))
