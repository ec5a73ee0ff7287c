-- ===== src/Base/Dict.antt =====
-- Go's maps as association lists: a key stands once, and a missing key reads as `none`.
use mathlib.Core.Path.{◌≡◌, refl, subst}
use mathlib.Core.Logic.{inl, inr}
use mathlib.Core.List.{List, [], ◌∷◌}
use mathlib.Core.Option.{Option, none, some}
use native.Mathlib.Omega.{arith}
use relayly.Base.Tests.{Eq, ◌==◌, if◌then◌else◌, Bool-cases}

module _ {ℓ} {K V : Type ℓ} ⦃e : Eq K⦄ where
  -- `m[key]`, with whether the key is there
  unfoldable pub lookup : K → List (K × V) → Option V
  lookup key [] = none
  lookup key ((here, value) ∷ rest) = if here == key then some value else lookup key rest

  -- `m[key] = value`
  unfoldable pub insert : K → V → List (K × V) → List (K × V)
  insert key value [] = (key, value) ∷ []
  insert key value ((here, old) ∷ rest) =
      if here == key then (key, value) ∷ rest else (here, old) ∷ insert key value rest

  -- `delete(m, key)`
  unfoldable pub erase : K → List (K × V) → List (K × V)
  erase key [] = []
  erase key ((here, value) ∷ rest) =
      let others = erase key rest in if here == key then others else (here, value) ∷ others

  pub lookup-insert :
      (key other : K) (value : V) (entries : List (K × V))
      → lookup other (insert key value entries)
        ≡ (if key == other then some value else lookup other entries)
  unfolding lookup insert
  lookup-insert key other value [] = refl
  lookup-insert key other value ((here, old) ∷ rest) = ground (
    arith,
    e.equal_iff key other,
    e.equal_iff here key,
    e.equal_iff here other,
    lookup-insert key other value rest,
  )

  pub lookup-erase :
      (k j : K) (m : List (K × V)) → lookup j (erase k m) ≡ (if k == j then none else lookup j m)
  unfolding lookup erase
  lookup-erase k j [] = ground arith
  lookup-erase k j ((i, w) ∷ m) =
      ground (arith, e.equal_iff k j, e.equal_iff i k, e.equal_iff i j, lookup-erase k j m)

  -- Every key stands once.
  abbrev pub IsMap : List (K × V) → Type ℓ
  IsMap [] = Unit
  IsMap ((k, v) ∷ m) = (lookup k m ≡ none) × IsMap m

  pub insert-IsMap : (k : K) (v : V) (m : List (K × V)) → IsMap m → IsMap (insert k v m)
  unfolding lookup insert
  insert-IsMap k v [] h = (refl, tt)
  insert-IsMap k v ((j, w) ∷ m) h = elim (Bool-cases (j == k)) [
    | inl hit ↦ rw hit (subst (λ i. lookup i m ≡ none) ((e.equal_iff j k).0 hit) h.0, h.1)
    | inr miss ↦ rw miss (
      ground (arith, lookup-insert k j v m, e.equal_iff j k, e.equal_iff k j),
      insert-IsMap k v m h.1,
    )
  ]
