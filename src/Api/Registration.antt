-- ===== src/Api/Registration.antt =====
-- A device's way in: registered over internal/api/handler.go, it connects to the endpoint of
-- internal/relay/handler.go.
use Prim.Native.Char.{Char}
use mathlib.Core.List.{reverse, reverse-reverse, foldl}
use relayly.Base.{
  ℕ, ◌+◌, ◌*◌, ◌≤◌, ◌<◌, ◌≡◌, ◌≢◌, refl, String, true, none, some, List, [], ◌∷◌, ◌++◌, length,
  arith, ltb, string_eq, nat_eq, eq_iff, if◌then◌else◌, take, drop, sym, ap, subst, ◌∙◌, replicate,
  length-append, length-replicate,
}
use relayly.Pairing.{
  text_of, generate_device_token, new_device, base58_encode, letter, big_endian, letters_of,
  encode_chunks, rounds, leading_zeros, device_token_ttl,
}
use relayly.Database.{Row, Device, create_device, taken, find, find_token, new_row}
use relayly.Database.Rows.{find-append_new}
use relayly.Relay.Hub.{Server}
use relayly.Relay.Handler.{upgraded, unauthorized, handle_connect}
use relayly.Relay.Access.{handle_connect-answer}
use relayly.Api.{json, register_device, handle_create_device}

foldl-grows : (bs : List ℕ) (n : ℕ) → n ≤ foldl (λ m b. m * 256 + b) n bs
foldl-grows [] n = omega arith
foldl-grows (b ∷ bs) n = omega (arith, foldl-grows bs (n * 256 + b))

-- Bytes that do not start with zero make a number.
big_endian-pos : (b : ℕ) (bs : List ℕ) → b ≢ 0 → 0 < big_endian (b ∷ bs)
unfolding big_endian
big_endian-pos b bs h = omega (arith, foldl-grows bs (0 * 256 + b))

letters_of-pos : (num : ℕ) → 0 < num → 0 < length (letters_of rounds num)
unfolding letters_of
letters_of-pos num h = ground arith

encoded :
    (b : ℕ) (bs : List ℕ)
    → let input = b ∷ bs in
      0 < length (encode_chunks (length input) input ++ replicate (leading_zeros input) (letter 0))
unfolding encode_chunks leading_zeros
encoded b bs = ground (
  arith,
  letters_of-pos (big_endian (b ∷ take 7 bs)),
  big_endian-pos b (take 7 bs),
  length-append
      (letters_of rounds (big_endian (b ∷ take 7 bs)) ++ encode_chunks (length bs) (drop 7 bs))
      (replicate (leading_zeros (b ∷ bs)) (letter 0)),
  length-append (letters_of rounds (big_endian (b ∷ take 7 bs)))
      (encode_chunks (length bs) (drop 7 bs)),
  length-replicate (leading_zeros (b ∷ bs)) (letter 0),
)

nonempty-reverse : (xs : List ℕ) → 0 < length xs → reverse xs ≢ []
nonempty-reverse xs h e =
    let none_left : xs ≡ [] = sym (reverse-reverse xs) ∙ ap (λ l. reverse l) e in ground arith

abbrev IsCons : String → Type 0
IsCons String.[] = ⊥
IsCons (String.◌∷◌ c s) = Unit

cons-nonempty : (c : Char) (s : String) → String.◌∷◌ c s ≢ ""
cons-nonempty c s e = subst IsCons e tt

text_of-nonempty : (xs : List ℕ) → xs ≢ [] → text_of xs ≢ ""
unfolding text_of
text_of-nonempty [] h e = h refl
text_of-nonempty (x ∷ xs) h e = cons-nonempty _ _ e

-- A token is never empty.
pub token_nonempty : (b : ℕ) (bs : List ℕ) → text_of (base58_encode (b ∷ bs)) ≢ ""
unfolding base58_encode
token_nonempty b bs = text_of-nonempty _ (nonempty-reverse _ (encoded b bs))

abbrev pub token_of : List ℕ → String
token_of random = text_of (base58_encode random)

-- What a registration with a new id and token answers, and the row that it adds.
create-registers :
    (now : ℕ) (random : List ℕ) (uuid name : String) (w : Server)
    → name ≢ ""
    → w.db.faults ≡ []
    → find uuid w.db.contents ≡ none
    → find_token (token_of random) w.db.contents ≡ none
    → let r = handle_create_device now (some random) uuid (some name) w in
      (r.0
        ≡ json (record {
          device_id = uuid;
          device_token = token_of random;
          expires_at = now + device_token_ttl;
        }))
      × (r.1.db.faults ≡ [])
      × ((x : Row) × (find uuid r.1.db.contents ≡ some x)
          × (x.device_token ≡ token_of random)
          × (x.expires_at ≡ some (now + device_token_ttl)))
unfolding handle_create_device register_device new_device generate_device_token create_device taken
    new_row
create-registers now random uuid name w named healthy fresh unused =
    let d : Device = record {
      id = uuid;
      name = name;
      public_key = "";
      device_token = token_of random;
      static_key = "";
      paired_with = none;
      created_at = now;
      last_seen = none;
      expires_at = some (now + device_token_ttl);
    } in
    (
      ground (arith, eq_iff name ""),
      ground (arith, eq_iff name ""),
      (
        new_row d,
        ground (
          arith,
          eq_iff name "",
          eq_iff uuid uuid,
          find-append_new uuid w.db.contents (new_row d),
        ),
        refl,
        refl,
      ),
    )

-- A registration with a name, over a database that runs every statement, and with random bytes and
-- a UUID that give a token and an id which no device has, answers with this id and token and the
-- time five minutes later. A connection that is then asked for with them gets through up to that
-- time, whatever else the table holds, and is refused as unauthorized after it.
pub register_connects :
    (now later b : ℕ) (bs : List ℕ) (uuid name : String) (w : Server)
    → name ≢ ""
    → uuid ≢ ""
    → w.db.faults ≡ []
    → find uuid w.db.contents ≡ none
    → find_token (token_of (b ∷ bs)) w.db.contents ≡ none
    → let r = handle_create_device now (some (b ∷ bs)) uuid (some name) w in
      (r.0
        ≡ json (record {
          device_id = uuid;
          device_token = token_of (b ∷ bs);
          expires_at = now + device_token_ttl;
        }))
      × ((handle_connect later true uuid (token_of (b ∷ bs)) r.1).0
          ≡ (if ltb (now + device_token_ttl) later then unauthorized else upgraded))
register_connects now later b bs uuid name w named identified healthy fresh unused =
    let random = b ∷ bs in
    let (answered, runs, (x, has, token, expires)) =
      create-registers now random uuid name w named healthy fresh unused in
    let v = (handle_create_device now (some random) uuid (some name) w).1 in
    (
      answered,
      ground (
        arith,
        handle_connect-answer later true uuid (token_of random) v runs,
        eq_iff uuid "",
        eq_iff (token_of random) "",
        eq_iff (token_of random) (token_of random),
        token_nonempty b bs,
      ),
    )
