-- ===== src/Examples/Registering.antt =====
-- examples/go/clipboard-sync/device.go, of which each example has a copy: a device's credentials,
-- from their file or from the server. JSON and the parsing of URLs are arguments, and so is what the
-- server answers; files are those of `Sdk.Keys`, with the same `expandHome`.
use relayly.Base.{
  ℕ, ◌≡◌, refl, inl, inr, String, Bool, true, not, ◌&&◌, Option, none, some, Result, ok, err,
  lookup, insert, lookup-insert, ◌==◌, string_eq, nat_eq, eq_iff, arith, Option-cases, Bool-cases,
  if◌then◌else◌,
}
use relayly.Sdk.Keys.{FileSystem, Files, expand_home}
use relayly.Api
use relayly.Api.{CreateDeviceResponse}

pub record DeviceCreds : Type 0 where
  pub device_id : String
  pub device_token : String

pub record Json : Type 0 where
  pub encode : DeviceCreds → String
  pub decode : String → Option DeviceCreds

pub data RegisterError : Type 0 where
  invalid_url registering decoding creating_directory saving : RegisterError
  server_returned : ℕ → RegisterError

-- The parts of a URL that `devicesEndpoint` sees.
pub record Url : Type 0 where
  pub scheme : String
  pub host : String
  pub path : String
  pub raw_query : String

unfoldable pub devices_endpoint : Url → Url
devices_endpoint u = record u {
  scheme = if u.scheme == "ws" then "http" else if u.scheme == "wss" then "https" else u.scheme;
  path = "/api/v1/devices";
  raw_query = "";
}

-- What `http.Post` yields: nothing, or a status with the body, where it decodes.
abbrev pub Posted : Type 0
Posted = Option (ℕ × Option DeviceCreds)

-- The answer of the relay's own handler.
unfoldable pub posted : Api.Reply CreateDeviceResponse → Posted
posted (Api.http_error code) = some (code, none)
posted (Api.json r) =
    some (200, some (record { device_id = r.device_id; device_token = r.device_token }))

abbrev pub is_complete : DeviceCreds → Bool
is_complete c = not (c.device_id == "") && not (c.device_token == "")

module _ (json : Json) where
  -- The credentials of the file, if it can be read, is JSON and has both.
  abbrev pub complete : Option DeviceCreds → Option DeviceCreds
  complete none = none
  complete (some c) = if is_complete c then some c else none

  unfoldable pub saved_creds : FileSystem → String → Files → Option DeviceCreds
  saved_creds fs file files = elim (lookup file files) [
    | none ↦ none
    | some text ↦ if fs.reads then complete (json.decode text) else none
  ]

  -- The credentials that the server gave are written, where that works; what a write that fails
  -- leaves of the file is told.
  unfoldable pub save_creds :
      FileSystem → DeviceCreds → String → Files → Result RegisterError DeviceCreds × Files
  save_creds fs c file files =
      if not fs.makes_directories
      then (err creating_directory, files)
      else if fs.writes
      then (ok c, insert file (json.encode c) files)
      else (err saving, elim fs.leaves [ none ↦ files | some text ↦ insert file text files ])

  unfoldable pub register :
      FileSystem
      → Option Url
      → (Url → Posted)
      → String
      → Files
      → Result RegisterError DeviceCreds × Files
  register fs none post file files = (err invalid_url, files)
  register fs (some url) post file files = elim (post (devices_endpoint url)) [
    | none ↦ (err registering, files)
    | some (code, body) ↦
        if not (code == 200)
        then (err (server_returned code), files)
        else (elim body [ none ↦ (err decoding, files) | some c ↦ save_creds fs c file files ])
  ]

  abbrev or_register :
      Option DeviceCreds
      → Result RegisterError DeviceCreds × Files
      → Files
      → Result RegisterError DeviceCreds × Files
  or_register none registered files = registered
  or_register (some c) registered files = (ok c, files)

  -- `registerOrLoadDevice`: the URL, where it parses, and the server.
  unfoldable pub register_or_load_device :
      FileSystem
      → Option Url
      → (Url → Posted)
      → String
      → Files
      → Result RegisterError DeviceCreds × Files
  register_or_load_device fs url post path files =
      let file = expand_home fs path in
      or_register (saved_creds fs file files) (register fs url post file files) files

  save_creds-saved :
      (fs : FileSystem) (d c : DeviceCreds) (file : String) (files : Files)
      → ((e : DeviceCreds) → json.decode (json.encode e) ≡ some e)
      → fs.reads ≡ true
      → is_complete c ≡ true
      → (save_creds fs d file files).0 ≡ ok c
      → saved_creds fs file (save_creds fs d file files).1 ≡ some c
  unfolding save_creds saved_creds
  save_creds-saved fs d c file files laws reads full h =
      ground (arith, laws c, lookup-insert file file (json.encode c) files, eq_iff file file)

  register-saved :
      (fs : FileSystem) (url : Option Url) (post : Url → Posted) (file : String) (files : Files)
      (c : DeviceCreds)
      → ((d : DeviceCreds) → json.decode (json.encode d) ≡ some d)
      → fs.reads ≡ true
      → is_complete c ≡ true
      → (register fs url post file files).0 ≡ ok c
      → saved_creds fs file (register fs url post file files).1 ≡ some c
  unfolding register
  register-saved fs none post file files c laws reads full h = absurd (ground arith)
  register-saved fs (some url) post file files c laws reads full h =
      elim (Option-cases (post (devices_endpoint url))) [
        | inl e ↦ absurd (ground arith)
        | inr ((code, body), e) ↦ elim (Bool-cases (code == 200)) [
          | inr f ↦ absurd (ground arith)
          | inl f ↦ elim (Option-cases body) [
            | inl g ↦ absurd (ground arith)
            | inr (d, g) ↦ ground (arith, save_creds-saved fs d c file files laws reads full)
          ]
        ]
      ]

  -- The credentials that were given are in their file.
  pub register_or_load_device-saves :
      (fs : FileSystem) (url : Option Url) (post : Url → Posted) (path : String) (files : Files)
      (c : DeviceCreds)
      → ((d : DeviceCreds) → json.decode (json.encode d) ≡ some d)
      → fs.reads ≡ true
      → is_complete c ≡ true
      → (register_or_load_device fs url post path files).0 ≡ ok c
      → saved_creds fs (expand_home fs path) (register_or_load_device fs url post path files).1
        ≡ some c
  unfolding register_or_load_device
  register_or_load_device-saves fs url post path files c laws reads full h =
      let file = expand_home fs path in
      elim (Option-cases (saved_creds fs file files)) [
        | inl e ↦ ground (arith, register-saved fs url post file files c laws reads full)
        | inr (d, e) ↦ ground arith
      ]

  pub register_or_load_device-loads :
      (fs : FileSystem) (url : Option Url) (post : Url → Posted) (path : String) (files : Files)
      (c : DeviceCreds)
      → saved_creds fs (expand_home fs path) files ≡ some c
      → register_or_load_device fs url post path files ≡ (ok c, files)
  unfolding register_or_load_device
  register_or_load_device-loads fs url post path files c e = rw e refl

  -- A device is registered once: if the credentials that `registerOrLoadDevice` gave have both
  -- their parts, every later call on the files as it left them gives the same and changes no file,
  -- whatever the server answers by then, as long as the file can be read, the home directory is the
  -- same, and JSON reads back what it writes.
  pub register_or_load_device_keeps :
      (fs : FileSystem) (url url' : Option Url) (post post' : Url → Posted) (path : String)
      (files : Files) (c : DeviceCreds)
      → ((d : DeviceCreds) → json.decode (json.encode d) ≡ some d)
      → fs.reads ≡ true
      → is_complete c ≡ true
      → (register_or_load_device fs url post path files).0 ≡ ok c
      → let after = (register_or_load_device fs url post path files).1 in
        register_or_load_device fs url' post' path after ≡ (ok c, after)
  register_or_load_device_keeps fs url url' post post' path files c laws reads full h =
      register_or_load_device-loads fs url' post' path _ c
        (register_or_load_device-saves fs url post path files c laws reads full h)
