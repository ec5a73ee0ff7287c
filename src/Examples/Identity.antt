-- ===== src/Examples/Identity.antt =====
-- examples/go/clipboard-sync/main.go and chat/main.go up to their connection: the device's key and
-- its credentials, both from files of one disk.
use relayly.Base.{
  ◌≡◌, ◌≢◌, refl, Bool, ◌∙◌, ap, inl, inr, ℕ, String, true, Option, none, some, List, arith, Result,
  ok, err, length, lookup, lookup-insert, ◌==◌, string_eq, nat_eq, eq_iff, Option-cases,
  Result-cases, Bool-cases,
}
use relayly.Sdk.Client.{Base64}
use relayly.Sdk.Keys.{
  FileSystem, Files, KeyError, expand_home, load_or_generate_key, load_key_from_file,
}
use relayly.Sdk.KeyFiles.{
  Base64Laws, load-elsewhere, expand_home-elsewhere, load_or_generate_key-loads, load-again,
}
use relayly.Examples.Registering.{
  DeviceCreds, Json, Url, Posted, RegisterError, is_complete, saved_creds, save_creds, register,
  devices_endpoint, register_or_load_device, register_or_load_device-saves,
  register_or_load_device-loads,
}

pub data StartError : Type 0 where
  key_error : KeyError → StartError
  registration_error : RegisterError → StartError

pub record Identity : Type 0 where
  pub key : List ℕ
  pub creds : DeviceCreds

-- Each example has its paths.
module _ (base64 : Base64) (json : Json) (key_path creds_path : String) where
  abbrev with_key :
      List ℕ → Result RegisterError DeviceCreds × Files → Result StartError Identity × Files
  with_key key (ok creds, files) = (ok (record { key = key; creds = creds }), files)
  with_key key (err e, files) = (err (registration_error e), files)

  abbrev after_key :
      FileSystem
      → Option Url
      → (Url → Posted)
      → Result KeyError (List ℕ) × Files
      → Result StartError Identity × Files
  after_key fs url post (err e, files) = (err (key_error e), files)
  after_key fs url post (ok key, files) =
      with_key key (register_or_load_device json fs url post creds_path files)

  -- What `main` hands to `Connect`.
  unfoldable pub identify :
      FileSystem
      → Option (List ℕ)
      → Option Url
      → (Url → Posted)
      → Files
      → Result StartError Identity × Files
  identify fs random url post files =
      after_key fs url post (load_or_generate_key base64 fs random key_path files)

  save_creds-elsewhere :
      (fs : FileSystem) (c : DeviceCreds) (file : String) (files : Files) (other : String)
      → other ≢ file
      → lookup other (save_creds json fs c file files).1 ≡ lookup other files
  unfolding save_creds
  save_creds-elsewhere fs c file files other apart = elim (Option-cases fs.leaves) [
    | inl e ↦ ground (arith, lookup-insert file other (json.encode c) files, eq_iff file other)
    | inr (text, e) ↦ ground (
      arith,
      lookup-insert file other (json.encode c) files,
      lookup-insert file other text files,
      eq_iff file other,
    )
  ]

  register-elsewhere :
      (fs : FileSystem) (url : Option Url) (post : Url → Posted) (file : String) (files : Files)
      (other : String)
      → other ≢ file
      → lookup other (register json fs url post file files).1 ≡ lookup other files
  unfolding register
  register-elsewhere fs none post file files other apart = refl
  register-elsewhere fs (some url) post file files other apart =
      elim (Option-cases (post (devices_endpoint url))) [
        | inl e ↦ ground arith
        | inr ((code, body), e) ↦ elim (Bool-cases (code == 200)) [
          | inr f ↦ ground arith
          | inl f ↦ elim (Option-cases body) [
            | inl g ↦ ground arith
            | inr (d, g) ↦ ground (arith, save_creds-elsewhere fs d file files other apart)
          ]
        ]
      ]

  -- A file that the registration does not write is as it was.
  register_or_load_device-elsewhere :
      (fs : FileSystem) (url : Option Url) (post : Url → Posted) (files : Files) (other : String)
      → other ≢ expand_home fs creds_path
      → lookup other (register_or_load_device json fs url post creds_path files).1
        ≡ lookup other files
  unfolding register_or_load_device
  register_or_load_device-elsewhere fs url post files other apart =
      let file = expand_home fs creds_path in
      elim (Option-cases (saved_creds json fs file files)) [
        | inl e ↦ ground (arith, register-elsewhere fs url post file files other apart)
        | inr (d, e) ↦ ground arith
      ]

  load_key_from_file-same :
      (fs : FileSystem) (path : String) (files files' : Files)
      → lookup (expand_home fs path) files ≡ lookup (expand_home fs path) files'
      → load_key_from_file base64 fs path files ≡ load_key_from_file base64 fs path files'
  unfolding load_key_from_file
  load_key_from_file-same fs path files files' e = rw (load_key_from_file, e) refl

  saved-elsewhere :
      (fs : FileSystem) (makes writes : Bool) (files : Files)
      → let later : FileSystem = record fs { makes_directories = makes; writes = writes } in
        saved_creds json later (expand_home later creds_path) files
        ≡ saved_creds json fs (expand_home fs creds_path) files
  unfolding saved_creds
  saved-elsewhere fs makes writes files =
      ap (λ f. saved_creds json fs f files) (expand_home-elsewhere fs makes writes creds_path)

  -- Both steps on one disk, once the first has left a key that loads.
  after_key-keeps :
      (fs : FileSystem) (random : Option (List ℕ)) (url url' : Option Url)
      (post post' : Url → Posted) (files : Files) (key : List ℕ) (c : DeviceCreds)
      (makes writes : Bool)
      → Base64Laws base64
      → ((d : DeviceCreds) → json.decode (json.encode d) ≡ some d)
      → fs.reads ≡ true
      → is_complete c ≡ true
      → expand_home fs key_path ≢ expand_home fs creds_path
      → load_key_from_file base64 fs key_path files ≡ ok key
      → (register_or_load_device json fs url post creds_path files).0 ≡ ok c
      → let after = (register_or_load_device json fs url post creds_path files).1 in
        let later : FileSystem = record fs { makes_directories = makes; writes = writes } in
        identify later random url' post' after ≡ (ok (record { key = key; creds = c }), after)
  unfolding identify
  after_key-keeps fs random url url' post post' files key c makes writes b64 laws reads full apart
        loads registered =
      let after = (register_or_load_device json fs url post creds_path files).1 in
      let same =
        register_or_load_device-elsewhere fs url post files (expand_home fs key_path) apart in
      let loaded =
        load-elsewhere base64 b64 fs makes writes key_path after
        ∙ load_key_from_file-same fs key_path after files same
        ∙ loads in
      let saved =
        register_or_load_device-saves json fs url post creds_path files c laws reads full
          registered in
      rw
        (
          load-again base64 b64 _ random key_path after key loaded,
          register_or_load_device-loads json _ url' post' creds_path after c
              (saved-elsewhere fs makes writes after ∙ saved),
        )
        refl

  -- The registration, after the key.
  with_key-keeps :
      (fs : FileSystem) (random : Option (List ℕ)) (url url' : Option Url)
      (post post' : Url → Posted) (files : Files) (key : List ℕ) (i : Identity)
      (makes writes : Bool)
      → Base64Laws base64
      → ((d : DeviceCreds) → json.decode (json.encode d) ≡ some d)
      → fs.reads ≡ true
      → is_complete i.creds ≡ true
      → expand_home fs key_path ≢ expand_home fs creds_path
      → load_key_from_file base64 fs key_path files ≡ ok key
      → (with_key key (register_or_load_device json fs url post creds_path files)).0 ≡ ok i
      → let after = (with_key key (register_or_load_device json fs url post creds_path files)).1 in
        let later : FileSystem = record fs { makes_directories = makes; writes = writes } in
        identify later random url' post' after ≡ (ok i, after)
  with_key-keeps fs random url url' post post' files key i makes writes b64 laws reads full apart
        loads h =
      elim (Result-cases (register_or_load_device json fs url post creds_path files).0) [
        | inr (x, e) ↦ absurd (ground arith)
        | inl (c, e) ↦ ground (
          arith,
          after_key-keeps fs random url url' post post' files key i.creds makes writes b64 laws
              reads full apart loads,
        )
      ]

  -- A device starts again as itself: if a start of an example has got a key and credentials with
  -- both their parts, loaded or made, then every later start on the files as it left them gets the
  -- same key and credentials and changes no file, whatever random bytes there are, whatever URL is
  -- given, whatever the server answers by then and whether or not files can be written. The key's
  -- and the credentials' paths are those of different files, files can be read, the home directory
  -- stays the same, the first start's random bytes are 32, and JSON and base64 read back what they
  -- write, base64 without spaces or line ends.
  pub identify_keeps :
      (fs : FileSystem) (random random' : Option (List ℕ)) (url url' : Option Url)
      (post post' : Url → Posted) (files : Files) (i : Identity) (makes writes : Bool)
      → Base64Laws base64
      → ((d : DeviceCreds) → json.decode (json.encode d) ≡ some d)
      → ((raw : List ℕ) → random ≡ some raw → length raw ≡ 32)
      → fs.reads ≡ true
      → is_complete i.creds ≡ true
      → expand_home fs key_path ≢ expand_home fs creds_path
      → (identify fs random url post files).0 ≡ ok i
      → let after = (identify fs random url post files).1 in
        let later : FileSystem = record fs { makes_directories = makes; writes = writes } in
        identify later random' url' post' after ≡ (ok i, after)
  unfolding identify
  identify_keeps fs random random' url url' post post' files i makes writes b64 laws size reads full
        apart h =
      let first = load_or_generate_key base64 fs random key_path files in
      elim (Result-cases first.0) [
        | inr (x, e) ↦ absurd (ground arith)
        | inl (key, e) ↦ ground (
          arith,
          with_key-keeps fs random' url url' post post' first.1 key i makes writes b64 laws reads
              full apart
              (load_or_generate_key-loads base64 b64 fs random key_path files key size reads e),
        )
      ]
