-- ===== src/Sdk/Closing.antt =====
-- `Close` of sdk/go/client.go against a `dial` of the reconnecting readLoop: the client's current
-- socket, and the sockets that are open.
use relayly.Base.{
  ℕ, zero, suc, Bool, true, Option, none, some, List, [], ◌∷◌, ◌≡◌, refl, arith, ◌==◌, nat_eq,
  if◌then◌else◌,
}

pub record Lifecycle : Type 0 where
  pub closed : Bool
  pub conn : Option ℕ
  pub sockets : List ℕ

unfoldable pub close_socket : ℕ → List ℕ → List ℕ
close_socket k [] = []
close_socket k (s ∷ ss) = let rest = close_socket k ss in if s == k then rest else s ∷ rest

abbrev close_current : Option ℕ → List ℕ → List ℕ
close_current none ss = ss
close_current (some k) ss = close_socket k ss

unfoldable pub close : Lifecycle → Lifecycle
close l =
    if l.closed then l else record l { closed = true; sockets = close_current l.conn l.sockets }

-- A `dial` that ends well has put its socket in place, whether or not the client was closed since
-- it began.
unfoldable pub dialled : ℕ → Lifecycle → Lifecycle
dialled k l = record l { conn = some k; sockets = k ∷ l.sockets }

abbrev pub closes : ℕ → Lifecycle → Lifecycle
closes zero l = l
closes (suc n) l = closes n (close l)

-- If the client is closed while a `dial` is under way, the new socket stays open, however often
-- `Close` is called after that.
pub dialled_late :
    (k n : ℕ) (l : Lifecycle) → (closes n (dialled k (close l))).sockets ≡ k ∷ (close l).sockets
unfolding close dialled
dialled_late k zero l = refl
dialled_late k (suc n) l = ground (arith, dialled_late k n l)
