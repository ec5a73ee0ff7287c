-- ===== src/Sdk/KeyFiles.antt =====
-- Key files of sdk/go/crypto.go, written and read.
use relayly.Base.{
  ℕ, ◌≡◌, is_ok, ◌∙◌, refl, String, Bool, true, false, ◌||◌, Option, none, some, List, arith,
  Result, ok, err, length, lookup-insert, nat_eq, string_eq, eq_iff, inl, inr, Result-cases,
}
use relayly.Sdk.Client.{Base64}
use relayly.Sdk.Keys.{
  FileSystem, Files, KeyError, generating, creating_directory, writing, not_exist, reading,
  invalid_encoding, invalid_length, is_blank, trim_end, with_newline, expand_home, key_of_bytes,
  save_to_file, load_key_from_file, generate_key, generate_and_save, load_or_generate_key,
  or_generate,
}

unfoldable pub has_blank : String → Bool
has_blank String.[] = false
has_blank (String.◌∷◌ c s) = let rest = has_blank s in is_blank c || rest

-- The text of bytes is read back, and has no spaces or line ends.
pub record Base64Laws (base64 : Base64) : Type 0 where
  pub decodes : (raw : List ℕ) → base64.decode (base64.encode raw) ≡ some raw
  pub unbroken : (raw : List ℕ) → has_blank (base64.encode raw) ≡ false

trim_end-with_newline : (s : String) → has_blank s ≡ false → trim_end (with_newline s) ≡ s
unfolding has_blank trim_end with_newline
trim_end-with_newline String.[] h = refl
trim_end-with_newline (String.◌∷◌ c s) h = ground (arith, trim_end-with_newline s)

pub expand_home-elsewhere :
    (fs : FileSystem) (makes writes : Bool) (path : String)
    → expand_home (record fs { makes_directories = makes; writes = writes }) path
      ≡ expand_home fs path
unfolding expand_home
expand_home-elsewhere fs makes writes String.[] = refl
expand_home-elsewhere fs makes writes (String.◌∷◌ c path) = refl

module _ (base64 : Base64) (laws : Base64Laws base64) where
  -- A key that was saved loads, wherever the home directory is.
  saved-loads :
      (fs : FileSystem) (key : List ℕ) (path : String) (files : Files)
      → length key ≡ 32
      → fs.reads ≡ true
      → is_ok (save_to_file base64 fs key path files).0 ≡ true
      → load_key_from_file base64 fs path (save_to_file base64 fs key path files).1 ≡ ok key
  unfolding load_key_from_file save_to_file key_of_bytes
  saved-loads fs key path files size reads h =
      let text = base64.encode key in
      let file = expand_home fs path in
      ground (
        arith,
        lookup-insert file file (with_newline text) files,
        eq_iff file file,
        trim_end-with_newline text (laws.unbroken key),
        laws.decodes key,
      )

  generated :
      (fs : FileSystem) (random : Option (List ℕ)) (path : String) (files : Files) (key : List ℕ)
      → (generate_and_save base64 fs random path files).0 ≡ ok key
      → (random ≡ some key)
        × (is_ok (save_to_file base64 fs key path files).0 ≡ true)
        × ((generate_and_save base64 fs random path files).1
            ≡ (save_to_file base64 fs key path files).1)
  unfolding generate_and_save generate_key
  generated fs none path files key h = absurd (ground arith)
  generated fs (some raw) path files key h =
      elim (Result-cases (save_to_file base64 fs raw path files).0) [
        | inl (u, e) ↦ ground arith
        | inr (x, e) ↦ absurd (ground arith)
      ]

  -- A key that was loaded or made is loaded.
  kept-loads :
      (fs : FileSystem) (random : Option (List ℕ)) (path : String) (files : Files) (key : List ℕ)
      (r : Result KeyError (List ℕ))
      → ((raw : List ℕ) → random ≡ some raw → length raw ≡ 32)
      → fs.reads ≡ true
      → load_key_from_file base64 fs path files ≡ r
      → (or_generate base64 fs random path files r).0 ≡ ok key
      → load_key_from_file base64 fs path (or_generate base64 fs random path files r).1 ≡ ok key
  unfolding or_generate
  kept-loads fs random path files key (ok k) size reads e h = ground arith
  kept-loads fs random path files key (err not_exist) size reads e h =
      let (from, done, same) = generated fs random path files key h in
      rw same (saved-loads fs key path files (size key from) reads done)
  kept-loads fs random path files key (err generating) size reads e h = absurd (ground arith)
  kept-loads fs random path files key (err creating_directory) size reads e h =
      absurd (ground arith)
  kept-loads fs random path files key (err writing) size reads e h = absurd (ground arith)
  kept-loads fs random path files key (err reading) size reads e h = absurd (ground arith)
  kept-loads fs random path files key (err invalid_encoding) size reads e h = absurd (ground arith)
  kept-loads fs random path files key (err invalid_length) size reads e h = absurd (ground arith)

  -- To load a key takes no directory and no write.
  pub load-elsewhere :
      (fs : FileSystem) (makes writes : Bool) (path : String) (files : Files)
      → load_key_from_file base64
          (record fs { makes_directories = makes; writes = writes })
          path
          files
        ≡ load_key_from_file base64 fs path files
  unfolding load_key_from_file
  load-elsewhere fs makes writes path files =
      rw (load_key_from_file, expand_home-elsewhere fs makes writes path) refl

  pub load-again :
      (fs : FileSystem) (random : Option (List ℕ)) (path : String) (files : Files) (key : List ℕ)
      → load_key_from_file base64 fs path files ≡ ok key
      → load_or_generate_key base64 fs random path files ≡ (ok key, files)
  unfolding load_or_generate_key or_generate
  load-again fs random path files key e = rw e refl

  -- The key that `LoadOrGenerateKey` gave is in its file.
  pub load_or_generate_key-loads :
      (fs : FileSystem) (random : Option (List ℕ)) (path : String) (files : Files) (key : List ℕ)
      → ((raw : List ℕ) → random ≡ some raw → length raw ≡ 32)
      → fs.reads ≡ true
      → (load_or_generate_key base64 fs random path files).0 ≡ ok key
      → load_key_from_file base64 fs path (load_or_generate_key base64 fs random path files).1
        ≡ ok key
  unfolding load_or_generate_key
  load_or_generate_key-loads fs random path files key size reads h =
      kept-loads fs random path files key (load_key_from_file base64 fs path files) size reads refl
        h

  -- A device keeps its key: if `LoadOrGenerateKey` of a path has given a key, from the file or made
  -- of 32 random bytes, then every later call on the files as it left them, with the same home
  -- directory, gives the same key and changes no file, whatever random bytes there are by then and
  -- whether or not files can be written, as long as they can be read and base64 reads back what it
  -- writes, without spaces or line ends.
  pub load_or_generate_key_keeps :
      (fs : FileSystem) (random random' : Option (List ℕ)) (path : String) (files : Files)
      (key : List ℕ) (makes writes : Bool)
      → ((raw : List ℕ) → random ≡ some raw → length raw ≡ 32)
      → fs.reads ≡ true
      → (load_or_generate_key base64 fs random path files).0 ≡ ok key
      → let after = (load_or_generate_key base64 fs random path files).1 in
        let later : FileSystem = record fs { makes_directories = makes; writes = writes } in
        load_or_generate_key base64 later random' path after ≡ (ok key, after)
  load_or_generate_key_keeps fs random random' path files key makes writes size reads h =
      let again = load_or_generate_key-loads fs random path files key size reads h in
      load-again _ random' path _ key (load-elsewhere fs makes writes path _ ∙ again)
