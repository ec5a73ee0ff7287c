-- ===== src/Sdk/Handshake.antt =====
-- The handshake of two sessions of sdk/go/noise.go with each other.
use relayly.Base.{
  ℕ, true, false, Option, none, some, List, ◌≡◌, refl, arith, inl, inr, Option-cases,
}
use relayly.Sdk.Noise.{
  NoiseLib, NoiseSession, new_initiator_session, new_responder_session, handle_handshake_message,
  read_msg1, read_msg2, read_msg3, write_msg2, write_msg3, finish_locked, session, ready,
}
use relayly.Sdk.Agreement.{Exchange, NoiseLaws, Joined}

module _ (lib : NoiseLib) (laws : NoiseLaws lib) where
  -- The three messages between two sessions that have just begun.
  pub record Agrees (s t : NoiseSession lib) (msg1 key_i key_r : List ℕ) : Type 0 where
    pub msg2 : List ℕ
    pub msg3 : List ℕ
    pub first :
        let h = handle_handshake_message lib msg1 t in
        (h.reply ≡ some msg2) × (h.done ≡ false) × (h.error ≡ none)
    pub second :
        let h = handle_handshake_message lib msg2 s in
        (h.reply ≡ some msg3) × (h.done ≡ true) × (h.error ≡ none)
    pub third :
        let h = handle_handshake_message lib msg3 (handle_handshake_message lib msg1 t).session in
        (h.reply ≡ none) × (h.done ≡ true) × (h.error ≡ none)
    pub knows_r : (handle_handshake_message lib msg2 s).session.peer_static ≡ key_r
    pub knows_i :
        (handle_handshake_message lib msg3
          (handle_handshake_message lib msg1 t).session).session.peer_static
        ≡ key_i
    pub joined :
        Joined lib laws
          (handle_handshake_message lib msg2 s).session
          (handle_handshake_message lib msg3 (handle_handshake_message lib msg1 t).session).session

  module _ (key_i key_r : List ℕ) (i r : lib.HandshakeState)
      (x : Exchange lib laws.Mirrors key_i key_r i r) where
    -- The responder's session after msg1, and both sessions in the end.
    abbrev answered : NoiseSession lib
    answered = record (session lib false r) {
      hs = (lib.write_message (lib.read_message x.msg1 r).0).0;
      got_msg1 = true;
    }

    abbrev ended_i : NoiseSession lib
    ended_i = record (session lib true (lib.write_message i).0) {
      hs = (lib.write_message (lib.read_message x.msg2 (lib.write_message i).0).0).0;
      status = ready;
      ciphers = some x.cs_i;
      peer_static =
          lib.peer_static (lib.write_message (lib.read_message x.msg2 (lib.write_message i).0).0).0;
    }

    abbrev ended_r : NoiseSession lib
    ended_r = record answered {
      hs = (lib.read_message x.msg3 answered.hs).0;
      status = ready;
      ciphers = some (x.cs_r.1, x.cs_r.0);
      peer_static = lib.peer_static (lib.read_message x.msg3 answered.hs).0;
    }

    handled1 :
        handle_handshake_message lib x.msg1 (session lib false r)
        ≡ record { reply = some x.msg2; done = false; error = none; session = answered }
    unfolding handle_handshake_message read_msg1 write_msg2
    handled1 = ground arith

    handled2 :
        handle_handshake_message lib x.msg2 (session lib true (lib.write_message i).0)
        ≡ record { reply = some x.msg3; done = true; error = none; session = ended_i }
    unfolding handle_handshake_message read_msg2 write_msg3 finish_locked
    handled2 = ground arith

    handled3 :
        handle_handshake_message lib x.msg3 answered
        ≡ record { reply = none; done = true; error = none; session = ended_r }
    unfolding handle_handshake_message read_msg3 finish_locked
    handled3 = ground arith

    exchange-Agrees :
        Agrees (session lib true (lib.write_message i).0) (session lib false r) x.msg1 key_i key_r
    exchange-Agrees = record {
      msg2 = x.msg2;
      msg3 = x.msg3;
      first = rw handled1 (refl, refl, refl);
      second = rw handled2 (refl, refl, refl);
      third = rw (handled1, handled3) (refl, refl, refl);
      knows_r = rw handled2 x.knows_r;
      knows_i = rw (handled1, handled3) x.knows_i;
      joined =
          rw (handled2, handled1, handled3)
            (record {
              s_ready = refl;
              t_ready = refl;
              cs_s = x.cs_i;
              cs_t = (x.cs_r.1, x.cs_r.0);
              has_s = refl;
              has_t = refl;
              forth = x.forth;
              back = x.back;
            });
    }

  started_as_initiator :
      (priv : lib.PrivateKey) (random : ℕ) (s : NoiseSession lib) (msg1 : List ℕ)
      → new_initiator_session lib priv random ≡ some (s, msg1)
      → (i : lib.HandshakeState) × (lib.new_handshake_state true priv random ≡ some i)
        × (s ≡ session lib true (lib.write_message i).0)
        × ((m : List ℕ × Option (lib.CipherState × lib.CipherState)) × ((lib.write_message i).1
              ≡ some m)
            × (msg1 ≡ m.0))
  unfolding new_initiator_session
  started_as_initiator priv random s msg1 h =
      elim (Option-cases (lib.new_handshake_state true priv random)) [
        | inl e ↦ absurd (ground arith)
        | inr (i, e) ↦ elim (Option-cases (lib.write_message i).1) [
          | inl f ↦ absurd (ground arith)
          | inr (m, f) ↦ (i, e, ground arith, (m, f, ground arith))
        ]
      ]

  started_as_responder :
      (priv : lib.PrivateKey) (random : ℕ) (t : NoiseSession lib)
      → new_responder_session lib priv random ≡ some t
      → (r : lib.HandshakeState) × (lib.new_handshake_state false priv random ≡ some r)
        × (t ≡ session lib false r)
  unfolding new_responder_session
  started_as_responder priv random t h =
      elim (Option-cases (lib.new_handshake_state false priv random)) [
        | inl e ↦ absurd (ground arith)
        | inr (r, e) ↦ (r, e, ground arith)
      ]

  -- Whatever the keys and the random bytes, a new initiator's and a new responder's session agree
  -- if the library keeps its laws: the first message, fed to the responder, gets a reply and is no
  -- end; that reply ends the initiator's handshake, and its reply the responder's, all without an
  -- error. Each session then has the other's key and decrypts what the other encrypts.
  pub handshake-Agrees :
      (priv_i priv_r : lib.PrivateKey) (random_i random_r : ℕ) (s t : NoiseSession lib)
      (msg1 : List ℕ)
      → new_initiator_session lib priv_i random_i ≡ some (s, msg1)
      → new_responder_session lib priv_r random_r ≡ some t
      → Agrees s t msg1 (laws.public_key priv_i) (laws.public_key priv_r)
  handshake-Agrees priv_i priv_r random_i random_r s t msg1 a b =
      let (i, new_i, s_is, (m, wrote, msg1_is)) = started_as_initiator priv_i random_i s msg1 a in
      let (r, new_r, t_is) = started_as_responder priv_r random_r t b in
      let x = laws.exchange priv_i priv_r random_i random_r i r new_i new_r in
      let same : msg1 ≡ x.msg1 = ground (arith, x.wrote1) in
      rw (s_is, t_is, same) (exchange-Agrees _ _ i r x)
