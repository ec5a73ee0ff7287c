-- ===== src/Sdk/Agreement.antt =====
-- Two sessions of sdk/go/noise.go that have joined with each other. What the Noise library does is a
-- record of laws.
use relayly.Base.{ℕ, true, false, none, some, List, ◌≡◌, refl, ok, arith}
use relayly.Sdk.Noise.{NoiseLib, NoiseSession, is_ready, encrypt, decrypt}

-- The XX pattern between an initiator's and a responder's handshake state: three messages, each
-- read by the other side as it was written; the last one gives both sides two cipher states, the
-- first of which is for the initiator to send with. `Mirrors a b` says that what `a` encrypts is
-- for `b` to decrypt.
pub record Exchange (lib : NoiseLib) (Mirrors : lib.CipherState → lib.CipherState → Type 0)
    (key_i key_r : List ℕ) (i r : lib.HandshakeState) : Type 0 where
  pub msg1 : List ℕ
  pub msg2 : List ℕ
  pub msg3 : List ℕ
  pub cs_i : lib.CipherState × lib.CipherState
  pub cs_r : lib.CipherState × lib.CipherState
  pub wrote1 : (lib.write_message i).1 ≡ some (msg1, none)
  pub read1 : (lib.read_message msg1 r).1 ≡ some none
  pub wrote2 : (lib.write_message (lib.read_message msg1 r).0).1 ≡ some (msg2, none)
  pub read2 : (lib.read_message msg2 (lib.write_message i).0).1 ≡ some none
  pub wrote3 :
      (lib.write_message (lib.read_message msg2 (lib.write_message i).0).0).1
      ≡ some (msg3, some cs_i)
  pub read3 :
      (lib.read_message msg3 (lib.write_message (lib.read_message msg1 r).0).0).1 ≡ some (some cs_r)
  pub forth : Mirrors cs_i.0 cs_r.0
  pub back : Mirrors cs_r.1 cs_i.1
  pub knows_r :
      lib.peer_static (lib.write_message (lib.read_message msg2 (lib.write_message i).0).0).0
      ≡ key_r
  pub knows_i :
      lib.peer_static (lib.read_message msg3 (lib.write_message (lib.read_message msg1 r).0).0).0
      ≡ key_i

pub record NoiseLaws (lib : NoiseLib) : Type 1 where
  pub public_key : lib.PrivateKey → List ℕ
  pub Mirrors : lib.CipherState → lib.CipherState → Type 0
  pub exchange :
      (priv_i priv_r : lib.PrivateKey) (random_i random_r : ℕ) (i r : lib.HandshakeState)
      → lib.new_handshake_state true priv_i random_i ≡ some i
      → lib.new_handshake_state false priv_r random_r ≡ some r
      → Exchange lib Mirrors (public_key priv_i) (public_key priv_r) i r
  -- A text that is encrypted decrypts, and the two states stay in step.
  pub carries :
      (a b : lib.CipherState) (text ciphertext : List ℕ)
      → Mirrors a b
      → (lib.encrypt text a).1 ≡ some ciphertext
      → ((lib.decrypt ciphertext b).1 ≡ some text)
        × Mirrors (lib.encrypt text a).0 (lib.decrypt ciphertext b).0

module _ (lib : NoiseLib) (laws : NoiseLaws lib) where
  -- Two ready sessions, each of which decrypts what the other encrypts.
  pub record Joined (s t : NoiseSession lib) : Type 0 where
    pub s_ready : is_ready lib s ≡ true
    pub t_ready : is_ready lib t ≡ true
    pub cs_s : lib.CipherState × lib.CipherState
    pub cs_t : lib.CipherState × lib.CipherState
    pub has_s : s.ciphers ≡ some cs_s
    pub has_t : t.ciphers ≡ some cs_t
    pub forth : laws.Mirrors cs_s.0 cs_t.1
    pub back : laws.Mirrors cs_t.0 cs_s.1

  encrypt-ready :
      (s : NoiseSession lib) (cs : lib.CipherState × lib.CipherState) (text ciphertext : List ℕ)
      → is_ready lib s ≡ true
      → s.ciphers ≡ some cs
      → (encrypt lib text s).1 ≡ ok ciphertext
      → ((lib.encrypt text cs.0).1 ≡ some ciphertext)
        × ((encrypt lib text s).0 ≡ record s { ciphers = some ((lib.encrypt text cs.0).0, cs.1) })
  unfolding encrypt
  encrypt-ready s cs text ciphertext r c e = ground arith

  decrypt-ready :
      (t : NoiseSession lib) (cs : lib.CipherState × lib.CipherState) (text ciphertext : List ℕ)
      → is_ready lib t ≡ true
      → t.ciphers ≡ some cs
      → (lib.decrypt ciphertext cs.1).1 ≡ some text
      → ((decrypt lib ciphertext t).1 ≡ ok text)
        × ((decrypt lib ciphertext t).0
            ≡ record t { ciphers = some (cs.0, (lib.decrypt ciphertext cs.1).0) })
  unfolding decrypt
  decrypt-ready t cs text ciphertext r c e = ground arith

  -- What one of two joined sessions encrypts, the other decrypts, and they stay joined.
  pub Joined-carries :
      (s t : NoiseSession lib) (text ciphertext : List ℕ)
      → Joined s t
      → (encrypt lib text s).1 ≡ ok ciphertext
      → ((decrypt lib ciphertext t).1 ≡ ok text)
        × Joined (encrypt lib text s).0 (decrypt lib ciphertext t).0
  Joined-carries s t text ciphertext j e =
      let (sealed, after_s) = encrypt-ready s j.cs_s text ciphertext j.s_ready j.has_s e in
      let (opened, forth) = laws.carries j.cs_s.0 j.cs_t.1 text ciphertext j.forth sealed in
      let (read, after_t) = decrypt-ready t j.cs_t text ciphertext j.t_ready j.has_t opened in
      (
        read,
        rw (after_s, after_t)
            (record {
              s_ready = j.s_ready;
              t_ready = j.t_ready;
              cs_s = ((lib.encrypt text j.cs_s.0).0, j.cs_s.1);
              cs_t = (j.cs_t.0, (lib.decrypt ciphertext j.cs_t.1).0);
              has_s = refl;
              has_t = refl;
              forth = forth;
              back = j.back;
            }),
      )
