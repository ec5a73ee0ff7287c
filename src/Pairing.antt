-- ===== src/Pairing.antt =====
-- internal/pairing/pairing.go: device tokens and pairing codes. Bytes and ASCII characters are
-- numbers; the random bytes, which `crypto/rand` yields, are an argument.
pub mod Alphabet
pub mod Collisions
pub mod Codes
mod Tests
use Prim.Native.Char.{Char, char, code, nul}
use Prim.Native.Nat.{Ordering, compare}
use mathlib.Core.List.{reverse, foldl}
use relayly.Base.{
  ℕ, zero, suc, ◌+◌, ◌*◌, ◌/◌, ◌%◌, ◌^◌, String, Bool, true, false, Option, none, some, ◌≡◌, refl,
  List, [], ◌∷◌, ◌++◌, map, length, take, drop, get_or, replicate, ◌==◌, nat_eq, if◌then◌else◌,
}
use relayly.Database.{Device}

abbrev pub ascii : String → List ℕ
ascii String.[] = []
ascii (String.◌∷◌ c s) = code c ∷ ascii s

abbrev pub base58_alphabet : List ℕ
base58_alphabet = ascii "123456789ABCDEFGHJKLMNPQRSTUVWXYZabcdefghijkmnopqrstuvwxyz"

-- `base58Alphabet[i]`; the callers index below 58.
unfoldable pub letter : ℕ → ℕ
letter i = get_or base58_alphabet i 0

unfoldable pub leading_zeros : List ℕ → ℕ
leading_zeros [] = 0
leading_zeros (b ∷ bs) = let more = leading_zeros bs in if b == 0 then suc more else 0

-- `binary.BigEndian.Uint64(chunk)`, the chunk's missing high bytes being zero.
unfoldable pub big_endian : List ℕ → ℕ
big_endian = foldl (λ n b. n * 256 + b) 0

-- The loop `for num > 0`. Eleven rounds are enough for 64 bits.
unfoldable pub letters_of : ℕ → ℕ → List ℕ
letters_of zero num = []
letters_of (suc fuel) num =
    let more = letter (num % 58) ∷ letters_of fuel (num / 58) in if num == 0 then [] else more

abbrev pub rounds : ℕ
rounds = 11

-- The loop over the chunks of eight bytes, with `encoded` as it grows from nothing.
unfoldable pub encode_chunks : ℕ → List ℕ → List ℕ
encode_chunks zero input = []
encode_chunks (suc fuel) [] = []
encode_chunks (suc fuel) (b ∷ bs) =
    letters_of rounds (big_endian (take 8 (b ∷ bs))) ++ encode_chunks fuel (drop 8 (b ∷ bs))

-- As many rounds as there are bytes are enough for the chunks.
unfoldable pub base58_encode : List ℕ → List ℕ
base58_encode input =
    reverse (encode_chunks (length input) input ++ replicate (leading_zeros input) (letter 0))

-- `fmt.Sprintf("%06d", n)` for n below a million.
unfoldable pub six_digits : ℕ → List ℕ
six_digits n = map (λ k. b'0' + n / 10 ^ k % 10) (5 ∷ 4 ∷ 3 ∷ 2 ∷ 1 ∷ 0 ∷ [])

unfoldable pub generate_pairing_code : List ℕ → List ℕ
unfolding big_endian six_digits
generate_pairing_code random = six_digits (big_endian random % 1_000_000)

-- `deviceTokenTTL` and `PairingCodeTTL`, five minutes in nanoseconds.
abbrev pub device_token_ttl : ℕ
device_token_ttl = 300_000_000_000

abbrev pub pairing_code_ttl : ℕ
pairing_code_ttl = 300_000_000_000

-- The ASCII characters of bytes; the callers' bytes are letters.
char_at : (n : ℕ) (o : Ordering) → compare n 55296 ≡ o → Char
char_at n Ordering.lt e = char n (rw e tt)
char_at n Ordering.eq e = nul
char_at n Ordering.gt e = nul

unfoldable pub text_of : List ℕ → String
unfolding char_at
text_of [] = String.[]
text_of (b ∷ bs) = String.◌∷◌ (char_at b (compare b 55296) refl) (text_of bs)

-- `none` is an error of `rand.Read`.
unfoldable pub generate_device_token : Option (List ℕ) → Option String
generate_device_token none = none
generate_device_token (some random) = some (text_of (base58_encode random))

-- The device, and when its token expires; the other fields are Go's zero values.
unfoldable pub new_device : ℕ → Option (List ℕ) → String → String → Option (Device × ℕ)
new_device now random uuid name = elim (generate_device_token random) [
  | none ↦ none
  | some token ↦ some (
    record {
      id = uuid;
      name = name;
      public_key = "";
      device_token = token;
      static_key = "";
      paired_with = none;
      created_at = now;
      last_seen = none;
      expires_at = some (now + device_token_ttl);
    },
    now + device_token_ttl,
  )
]
