-- ===== src/Sdk/Keys.antt =====
-- sdk/go/crypto.go: private keys and their files. A key is its bytes. Of the files, which are texts
-- by their paths here, only those that the client names are seen; whether a directory can be made
-- and a file be read or written, what a failed write leaves of it, the home directory and
-- `filepath.Join` are arguments.
use Prim.Native.Char.{Char, code}
use relayly.Base.{
  ℕ, String, Bool, not, ◌||◌, ◌&&◌, Option, none, some, List, Result, ok, err, length, lookup,
  insert, ◌==◌, nat_eq, string_eq, if◌then◌else◌,
}
use relayly.Sdk.Client.{Base64}

pub data KeyError : Type 0 where
  generating creating_directory writing not_exist reading invalid_encoding invalid_length : KeyError

pub record FileSystem : Type 0 where
  pub home : Option String
  pub join : String → String → String
  pub makes_directories : Bool
  pub reads : Bool
  pub writes : Bool
  pub leaves : Option String

abbrev pub Files : Type 0
Files = List (String × String)

-- `GenerateKey`: `io.ReadFull` yields all of its bytes, or an error.
unfoldable pub generate_key : Option (List ℕ) → Result KeyError (List ℕ)
generate_key none = err generating
generate_key (some raw) = ok raw

-- `expandHome`
unfoldable pub expand_home : FileSystem → String → String
expand_home fs String.[] = String.[]
expand_home fs (String.◌∷◌ c path) =
    if code c == b'~'
    then (elim fs.home [ none ↦ String.◌∷◌ c path | some home ↦ fs.join home path ])
    else String.◌∷◌ c path

-- `encoded + "\n"`
unfoldable pub with_newline : String → String
with_newline String.[] = "\n"
with_newline (String.◌∷◌ c s) = String.◌∷◌ c (with_newline s)

abbrev pub is_blank : Char → Bool
is_blank c = code c == 10 || code c == 13 || code c == 32

-- The text without the newlines, carriage returns and spaces at its end.
unfoldable pub trim_end : String → String
trim_end String.[] = String.[]
trim_end (String.◌∷◌ c s) =
    let rest = trim_end s in if is_blank c && rest == "" then String.[] else String.◌∷◌ c rest

module _ (base64 : Base64) where
  -- The length that a key must have.
  unfoldable pub key_of_bytes : Option (List ℕ) → Result KeyError (List ℕ)
  key_of_bytes none = err invalid_encoding
  key_of_bytes (some raw) = if length raw == 32 then ok raw else err invalid_length

  unfoldable pub private_key_from_base64 : String → Result KeyError (List ℕ)
  private_key_from_base64 s = key_of_bytes (base64.decode s)

  unfoldable pub public_key_from_base64 : String → Result KeyError (List ℕ)
  public_key_from_base64 s = key_of_bytes (base64.decode s)

  unfoldable pub save_to_file :
      FileSystem → List ℕ → String → Files → Result KeyError (Unit {0}) × Files
  save_to_file fs key path files =
      if not fs.makes_directories
      then (err creating_directory, files)
      else if not fs.writes
      then (
        err writing,
        elim fs.leaves [ none ↦ files | some text ↦ insert (expand_home fs path) text files ],
      )
      else (ok tt, insert (expand_home fs path) (with_newline (base64.encode key)) files)

  unfoldable pub load_key_from_file : FileSystem → String → Files → Result KeyError (List ℕ)
  load_key_from_file fs path files = elim (lookup (expand_home fs path) files) [
    | none ↦ err not_exist
    | some text ↦ if fs.reads then key_of_bytes (base64.decode (trim_end text)) else err reading
  ]

  abbrev saved : List ℕ → Result KeyError (Unit {0}) × Files → Result KeyError (List ℕ) × Files
  saved key (ok u, files) = (ok key, files)
  saved key (err e, files) = (err e, files)

  unfoldable pub generate_and_save :
      FileSystem → Option (List ℕ) → String → Files → Result KeyError (List ℕ) × Files
  generate_and_save fs random path files = elim (generate_key random) [
    | err e ↦ (err e, files)
    | ok key ↦ saved key (save_to_file fs key path files)
  ]

  -- Only a file that does not exist is made.
  unfoldable pub or_generate :
      FileSystem
      → Option (List ℕ)
      → String
      → Files
      → Result KeyError (List ℕ)
      → Result KeyError (List ℕ) × Files
  or_generate fs random path files (ok key) = (ok key, files)
  or_generate fs random path files (err not_exist) = generate_and_save fs random path files
  or_generate fs random path files (err e) = (err e, files)

  unfoldable pub load_or_generate_key :
      FileSystem → Option (List ℕ) → String → Files → Result KeyError (List ℕ) × Files
  load_or_generate_key fs random path files =
      or_generate fs random path files (load_key_from_file fs path files)
