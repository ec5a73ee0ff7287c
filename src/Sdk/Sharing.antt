-- ===== src/Sdk/Sharing.antt =====
-- sdk/go/pairing.go: the URL of a pairing code, over net/url's parsing and printing.
use Prim.Native.String.{◌++◌ as ◌<>◌}
use relayly.Base.{
  ◌≡◌, refl, String, Option, none, some, List, lookup, insert, lookup-insert, ◌==◌, string_eq,
  if◌then◌else◌,
}
use relayly.Sdk.Calls.{PairCode}

-- A URL, with its query by keys.
pub record Url : Type 0 where
  pub scheme : String
  pub host : String
  pub path : String
  pub query : List (String × String)

-- The URL that is printed: the server's path is replaced.
unfoldable pub pair_url : PairCode → Url → Url
pair_url code u = record u { path = "/pair"; query = insert "code" code.short u.query }

-- `QRCodeURL`
unfoldable pub qr_code_url : (String → Option Url) → (Url → String) → PairCode → String → String
qr_code_url parse print code server_url = elim (parse server_url) [
  | none ↦ server_url <> "/pair?code=" <> code.short
  | some u ↦ print (pair_url code u)
]

-- The URL of a code leads to the server of the URL that was given, whatever path that had: its path
-- is `/pair`, its code is the one to be shared, and its other parameters are as they were.
pub pair_url_lem :
    (code : PairCode) (u : Url) (key : String)
    → let v = pair_url code u in
      (v.scheme ≡ u.scheme)
      × (v.host ≡ u.host)
      × (v.path ≡ "/pair")
      × (lookup key v.query ≡ (if "code" == key then some code.short else lookup key u.query))
unfolding pair_url
pair_url_lem code u key = (refl, refl, refl, lookup-insert "code" key code.short u.query)
