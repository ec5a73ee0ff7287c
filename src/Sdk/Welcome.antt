-- ===== src/Sdk/Welcome.antt =====
-- How `dial` (sdk/go/client.go) ends, with the relay's welcome (internal/relay/control.go) as the
-- first frame.
use relayly.Base.{
  ◌≡◌, refl, String, Bool, true, false, ℕ, Option, none, some, List, [], ◌∷◌, arith, ok, is_ok,
  string_eq, nat_eq,
}
use relayly.Relay.Client.{PeerInfo}
use relayly.Relay.Control.{welcome}
use relayly.Sdk.Noise.{NoiseLib}
use relayly.Sdk.Client.{Client, Base64}
use relayly.Sdk.Frames.{apply_welcome_peers}
use relayly.Sdk.Dialing.{Dialer, Socket, dial, announce, read_welcome, text_frame, announce_key}

-- Whether a connection is left open.
abbrev pub left_open : Option Socket → Bool
left_open none = false
left_open (some s) = s.is_open

module _ (lib : NoiseLib) (base64 : Base64) where
  -- Over a connection on which the relay's welcome comes first, `dial` succeeds if the key can be
  -- derived and written: the connection stays open, the key has been announced on it and nothing
  -- else, and the peers of the welcome are registered.
  pub dial_welcomed :
      (d : Dialer) (id : String) (peers : List PeerInfo) (key : List ℕ) (c : Client lib base64)
      → d.parses_url ≡ true
      → d.connects ≡ true
      → d.first ≡ text_frame (welcome id peers)
      → d.public_key ≡ some key
      → d.announces ≡ true
      → dial lib base64 d c ≡ record {
        result = ok tt;
        client = apply_welcome_peers lib base64 peers c;
        socket = some (record { is_open = true; written = announce_key (base64.encode key) ∷ [] });
      }
  unfolding dial announce read_welcome
  dial_welcomed d id peers key c parses connects first derives announces =
      rw (parses, connects, first, derives, announces) refl

  -- `dial` leaves a connection open exactly if it succeeds.
  pub dial-left_open :
      (d : Dialer) (c : Client lib base64)
      → left_open (dial lib base64 d c).socket ≡ is_ok (dial lib base64 d c).result
  unfolding dial announce
  dial-left_open d c = ground arith
