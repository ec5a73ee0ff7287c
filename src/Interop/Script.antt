-- ===== src/Interop/Script.antt =====
-- interop/harness: what its scenarios do, as a monad over the server, the proxy and the two clients
-- under test (instance.go, server.go). The surroundings' answers are lists that the calls take from.
use relayly.Base.{
  String, Bool, true, false, ◌||◌, Option, none, some, List, [], ◌∷◌, ◌++◌, lookup, ◌==◌, string_eq,
  Result, ok, err, if◌then◌else◌,
}
use relayly.Interop.{Proxy, Instance, wait_for}

-- A JSON object with the fields that are texts and those that are Booleans.
pub record Event : Type 0 where
  pub texts : List (String × String)
  pub flags : List (String × Bool)

abbrev or_default : {A : Type 0} → A → Option A → A
or_default d none = d
or_default d (some a) = a

unfoldable pub str : Event → String → String
str e key = or_default "" (lookup key e.texts)

unfoldable pub bool : Event → String → Bool
bool e key = or_default false (lookup key e.flags)

unfoldable pub type : Event → String
unfolding str
type e = str e "event"

pub data Command : Type 0 where
  request_pair_code close : Command
  accept_pair : String → Command
  send : String → String → Command

-- The two clients under test of a scenario.
pub data Side : Type 0 where
  side_a side_b : Side

-- A shim: its events, the commands that it was given, whether it runs, and whether it takes the
-- commands to come.
pub record Shim : Type 0 where
  pub instance' : Instance Event
  pub commands : List Command
  pub running : Bool
  pub takes : List Bool

pub record DeviceCreds : Type 0 where
  pub device_id : String
  pub device_token : String

pub record PinFileEntry : Type 0 where
  pub static_key : String
  pub pinned_at : String

abbrev pub PinFile : Type 0
PinFile = List (String × PinFileEntry)

-- `registrations`: what the server makes of each `registerDevice`; `pin_files`: what each reading of
-- a peer store yields; `launches`: whether each process starts; `writes`: whether each seeded file
-- can be written.
pub record World : Type 0 where
  pub shim_a : Shim
  pub shim_b : Shim
  pub proxy : Proxy
  pub registrations : List (Option DeviceCreds)
  pub pin_files : List (Option PinFile)
  pub launches : List Bool
  pub writes : List Bool

abbrev pub shim : Side → World → Shim
shim side_a w = w.shim_a
shim side_b w = w.shim_b

abbrev pub set_shim : Side → Shim → World → World
set_shim side_a s w = record w { shim_a = s }
set_shim side_b s w = record w { shim_b = s }

-- An error, by the step that has it.
abbrev pub Script : Type 0 → Type 0
Script A = World → Result String A × World

module _ {A B : Type 0} where
  abbrev pub after : Result String A × World → (A → Script B) → Result String B × World
  after (ok x, w) f = f x w
  after (err e, w) f = (err e, w)

  infixl 5 ◌>>=◌
  abbrev pub ◌>>=◌ : Script A → (A → Script B) → Script B
  ◌>>=◌ m f w = after (m w) f

  infixl 5 ◌>>◌
  abbrev pub ◌>>◌ : Script A → Script B → Script B
  ◌>>◌ m k w = after (m w) (λ _. k)

abbrev pub done : Script (Unit {0})
done w = (ok tt, w)

module _ {A : Type 0} where
  abbrev pub return : A → Script A
  return x w = (ok x, w)

  abbrev pub fail : String → Script A
  fail step w = (err step, w)

abbrev pub check : Bool → String → Script (Unit {0})
check test step w = if test then (ok tt, w) else (err step, w)

abbrev pub head_or : {A : Type 0} → A → List A → A
head_or d [] = d
head_or d (x ∷ xs) = x

abbrev pub tail : {A : Type 0} → List A → List A
tail [] = []
tail (x ∷ xs) = xs

abbrev pub granted : {A : Type 0} → String → Option A → Script A
granted step none = fail step
granted step (some x) = return x

-- `registerDevice`
unfoldable pub register_device : Script DeviceCreds
register_device w =
    granted "registering device" (head_or none w.registrations)
      (record w { registrations = tail w.registrations })

-- `Instance.Send`
unfoldable pub send_command : Side → Command → Script (Unit {0})
send_command side command w =
    let s = shim side w in
    if head_or true s.takes
    then (
      ok tt,
      set_shim side (record s { commands = s.commands ++ command ∷ []; takes = tail s.takes }) w,
    )
    else (err "stdin", set_shim side (record s { takes = tail s.takes }) w)

-- `Instance.WaitFor`
unfoldable pub await : Side → (Event → Bool) → Script Event
await side fits w =
    let r = wait_for fits (shim side w).instance' in
    granted "waiting for event" r.0 (set_shim side (record (shim side w) { instance' = r.1 }) w)

abbrev pub is_type : String → Event → Bool
is_type name e = type e == name

abbrev pub kill : Side → World → World
kill side w = set_shim side (record (shim side w) { running = false }) w

abbrev pub greeted : Side → Result String Event × World → Result String (Unit {0}) × World
greeted side (err e, w) = (err e, kill side w)
greeted side (ok e, w) =
    if type e == "connect_error" then (err "connect_error", kill side w) else (ok tt, w)

-- `StartInstance`: a shim that does not connect is killed.
unfoldable pub start_instance : Side → Script (Unit {0})
start_instance side w =
    let v = record w { launches = tail w.launches } in
    if head_or true w.launches
    then greeted side (
        await side (λ e. is_type "ready" e || is_type "connect_error" e)
          (set_shim side (record (shim side v) { running = true }) v))
    else (err "start", v)

-- `Instance.Close`: it is asked to close, and is killed if it does not.
unfoldable pub close_instance : Side → World → World
close_instance side w = kill side (send_command side close w).1

-- What follows `StartInstance` with the deferred `Close`.
abbrev closing : {A : Type 0} → Side → Result String A × World → Result String A × World
closing side (r, w) = (r, close_instance side w)

unfoldable pub with_instance : {A : Type 0} → Side → Script A → Script A
with_instance side body w =
    let r = start_instance side w in
    elim r.0 [ err e ↦ (err e, r.1) | ok u ↦ closing side (body r.1) ]
