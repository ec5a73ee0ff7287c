-- ===== src/Examples/Tests.antt =====
-- Two devices with a clipboard each, a device that registers, and instances of the theorems.
use Prim.Native.Char.{Char, code}
use relayly.Base.{
  ap, false, ok, ℕ, List, length, replicate, nat_eq, ◌≡◌, refl, String, true, none, some, Option,
  [], ◌∷◌, arith, eq_iff, insert, lookup, ◌==◌, string_eq, if◌then◌else◌,
}
use relayly.Database.{find, find_token}
use relayly.Relay.Hub.{Server, new_hub}
use relayly.Relay.Handler.{unauthorized, handle_connect}
use relayly.Sdk.Keys.{
  FileSystem, load_or_generate_key, load_key_from_file, or_generate, generate_and_save,
  generate_key, save_to_file, expand_home,
}
use relayly.Sdk.Unary64.{unary64, unary64-Laws}
use relayly.Api.{handle_create_device}
use relayly.Api.Registration.{token_of}
use relayly.Examples.Clipboard.{
  copy, settled, crossing, other_way, polls, rounds, in_step, turns, turn, polls_here, polls_there,
  receives_here, receives_there, Turn, poll, receive, read_clipboard, write_clipboard,
}
use relayly.Examples.Resting.{copies-agree}
use relayly.Examples.Registering.{
  DeviceCreds, Json, Url, Posted, devices_endpoint, saved_creds, register, save_creds,
  register_or_load_device,
}
use relayly.Examples.Identity.{Identity, identify, identify_keeps}
use relayly.Examples.Expiring.{expired_for_good}

-- One copied text reaches the other side in one round, and rests after two.
one_copy : rounds 2 (polls (copy "hi" (settled ""))) ≡ settled "hi"
unfolding rounds in_step turns turn poll receive read_clipboard write_clipboard
one_copy = refl

two_copies :
    rounds 3 (polls (other_way (copy "b" (other_way (copy "a" (settled "")))))) ≡ crossing "b" "a"
unfolding rounds in_step turns turn poll receive read_clipboard write_clipboard
two_copies = refl

-- Here the second text wins: this device takes it before the other reads its own back.
abbrev one_after_the_other : List Turn
one_after_the_other =
    receives_here ∷ polls_here true ∷ receives_there ∷ receives_there ∷ polls_there true ∷ []

copies-agree_example :
    let p =
      turns one_after_the_other
        (polls (other_way (copy "b" (other_way (copy "a" (settled "old")))))) in
    p.here.clipboard ≡ p.there.clipboard
unfolding turns turn poll receive read_clipboard write_clipboard
copies-agree_example =
    copies-agree "a" "b" "old" one_after_the_other (ground (arith, eq_iff "a" "old"))
      (ground (arith, eq_iff "b" "old")) (ground (arith, eq_iff "a" ""))
      (ground (arith, eq_iff "b" "")) (refl, refl, refl, refl)

abbrev relay_url : Url
relay_url = record { scheme = "wss"; host = "relay"; path = "/ws"; raw_query = "x=1" }

endpoint :
    devices_endpoint relay_url
    ≡ record { scheme = "https"; host = "relay"; path = "/api/v1/devices"; raw_query = "" }
unfolding devices_endpoint
endpoint = refl

abbrev server : Server
server = new_hub (record { contents = []; faults = [] })

abbrev disk : FileSystem
disk = record {
  home = some "/root";
  join = λ a b. b;
  makes_directories = true;
  reads = true;
  writes = true;
  leaves = none;
}

abbrev mark : Char
mark = "x"

abbrev dot : Char
dot = "."

-- A toy of JSON: the letters of the id, each after a mark, then a dot and the token.
written : String → String → String
written String.[] token = String.◌∷◌ dot token
written (String.◌∷◌ c id) token = String.◌∷◌ mark (String.◌∷◌ c (written id token))

abbrev with_letter : Char → Option DeviceCreds → Option DeviceCreds
with_letter c none = none
with_letter c (some d) = some (record d { device_id = String.◌∷◌ c d.device_id })

parsed : String → Option DeviceCreds
parsed String.[] = none
parsed (String.◌∷◌ m String.[]) =
    if code m == b'.' then some (record { device_id = ""; device_token = "" }) else none
parsed (String.◌∷◌ m (String.◌∷◌ c rest)) =
    let more = parsed rest in
    if code m == b'.'
    then some (record { device_id = ""; device_token = String.◌∷◌ c rest })
    else with_letter c more

parsed-written :
    (id token : String)
    → parsed (written id token) ≡ some (record { device_id = id; device_token = token })
unfolding parsed written
parsed-written String.[] String.[] = refl
parsed-written String.[] (String.◌∷◌ c rest) = refl
parsed-written (String.◌∷◌ c id) token = ap (with_letter c) (parsed-written id token)

abbrev toy_json : Json
toy_json = record { encode = λ d. written d.device_id d.device_token; decode = parsed }

-- Six minutes after its registration the device has the same credentials as ever, and no way in.
expired_for_good_example :
    let r = handle_create_device 0 (some (1 ∷ 2 ∷ [])) "a" (some "laptop") server in
    (handle_connect 360_000_000_000 true "a" (token_of (1 ∷ 2 ∷ [])) r.1).0 ≡ unauthorized
unfolding find find_token saved_creds new_hub lookup
expired_for_good_example =
    (expired_for_good toy_json disk 0 360_000_000_000 1 (2 ∷ []) "a" "laptop" "creds" relay_url []
      server (λ d. parsed-written d.device_id d.device_token) (ground (arith, eq_iff "laptop" ""))
      (ground (arith, eq_iff "a" "")) refl refl refl refl (refl, (refl, refl)) (omega arith)).1

-- A new device, and its second start with neither server nor room on the disk.
identify_keeps_example :
    let start = identify unary64 toy_json "~/k" "~/d" in
    let answer : Url → Posted =
      λ u. some (200, some (record { device_id = "a"; device_token = "t" })) in
    let r = start disk (some (replicate 32 1)) (some relay_url) answer [] in
    (start (record disk { writes = false }) none none (λ u. none) r.1).0
    ≡ ok (record { key = replicate 32 1; creds = record { device_id = "a"; device_token = "t" } })
unfolding identify load_or_generate_key load_key_from_file or_generate generate_and_save
    generate_key save_to_file expand_home lookup register_or_load_device saved_creds register
    save_creds insert
identify_keeps_example =
    let i : Identity = record {
      key = replicate 32 1;
      creds = record { device_id = "a"; device_token = "t" };
    } in
    let answer : Url → Posted =
      λ u. some (200, some (record { device_id = "a"; device_token = "t" })) in
    ap (λ r. r.0)
      (identify_keeps unary64 toy_json "~/k" "~/d" disk (some (replicate 32 1)) none
        (some relay_url) none answer (λ u. none) [] i true false unary64-Laws
        (λ d. parsed-written d.device_id d.device_token) (λ raw e. sized raw e) refl refl
        (ground (arith, eq_iff "/k" "/d")) refl)
  where
    sized : (raw : List ℕ) → some (replicate 32 1) ≡ some raw → length raw ≡ 32
    sized raw e = ground arith
