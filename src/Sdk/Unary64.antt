-- ===== src/Sdk/Unary64.antt =====
-- A text of bytes that keeps the laws of base64, for runs of the key files.
use Prim.Native.Char.{code}
use mathlib.Core.Option
use relayly.Base.{
  ℕ, zero, suc, ◌+◌, ◌≡◌, refl, ap, ◌∙◌, String, false, Option, some, List, [], ◌∷◌, arith, ◌==◌,
  nat_eq, if◌then◌else◌,
}
use relayly.Sdk.Client.{Base64}
use relayly.Sdk.KeyFiles.{Base64Laws, has_blank}

-- As many letters `a` as the number says, and a `b`.
unfoldable pub unary : ℕ → String → String
unary zero s = String.◌∷◌ "b" s
unary (suc n) s = String.◌∷◌ "a" (unary n s)

unfoldable pub written : List ℕ → String
unfolding unary
written [] = ""
written (n ∷ ns) = unary n (written ns)

unfoldable pub parsed : ℕ → String → Option (List ℕ)
parsed n String.[] = some []
parsed n (String.◌∷◌ c s) =
    let rest = parsed 0 s in
    let more = parsed (suc n) s in if code c == b'b' then Option.map (λ ns. n ∷ ns) rest else more

parsed-unary :
    (n k : ℕ) (s : String) → parsed k (unary n s) ≡ Option.map (λ ns. (k + n) ∷ ns) (parsed 0 s)
unfolding parsed unary
parsed-unary zero k s = ap (λ m. Option.map (λ ns. m ∷ ns) (parsed 0 s)) zero_last
  where
    zero_last : k ≡ k + 0
    zero_last = omega arith
parsed-unary (suc n) k s =
    parsed-unary n (suc k) s ∙ ap (λ m. Option.map (λ ns. m ∷ ns) (parsed 0 s)) next
  where
    next : suc k + n ≡ k + suc n
    next = omega arith

parsed-written : (ns : List ℕ) → parsed 0 (written ns) ≡ some ns
unfolding parsed written
parsed-written [] = refl
parsed-written (n ∷ ns) = rw (parsed-unary n 0 (written ns), parsed-written ns) (ground arith)

has_blank-unary : (n : ℕ) (s : String) → has_blank (unary n s) ≡ has_blank s
unfolding has_blank unary
has_blank-unary zero s = refl
has_blank-unary (suc n) s = has_blank-unary n s

has_blank-written : (ns : List ℕ) → has_blank (written ns) ≡ false
unfolding has_blank written
has_blank-written [] = refl
has_blank-written (n ∷ ns) = has_blank-unary n (written ns) ∙ has_blank-written ns

abbrev pub unary64 : Base64
unary64 = record { encode = written; decode = parsed 0 }

pub unary64-Laws : Base64Laws unary64
unary64-Laws = record { decodes = parsed-written; unbroken = has_blank-written }
