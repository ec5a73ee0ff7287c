-- ===== src/Http/Found.antt =====
-- The route that a mux chooses is one of its routes, and fits the request.
use relayly.Base.{
  ◌≡◌, ◌⊎◌, inl, inr, String, true, false, some, List, [], ◌∷◌, arith, eq_iff, string_eq,
  Bool-cases, Option-cases,
}
use relayly.Http.{
  Request, exactly, Pattern, fits, fits_rest, after_segments, Routes, handled_by, find, dispatch,
  comes_before,
}

-- Some route is for `h` and fits the request.
abbrev pub Offers : {H : Type 0} → Routes H → Request → H → Type 0
Offers [] r h = ⊥
Offers (route ∷ routes) r h = ((route.1 ≡ h) × (fits r route.0 ≡ true)) ⊎ Offers routes r h

module _ {H : Type 0} (r : Request) (h : H) where
  Offers-find :
      (routes : Routes H) (route : Pattern × H)
      → find r routes ≡ some route
      → route.1 ≡ h
      → Offers routes r h
  unfolding find
  Offers-find [] route e f = absurd (ground arith)
  Offers-find (first ∷ routes) route e f = elim (Bool-cases (fits r first.0)) [
    | inr miss ↦ inr (Offers-find routes route (ground arith) f)
    | inl hit ↦ elim (Option-cases (find r routes)) [
      | inl none_after ↦ inl (ground arith, hit)
      | inr (other, after) ↦ elim (Bool-cases (comes_before other.0 first.0)) [
        | inl better_after ↦ inr (Offers-find routes other after (ground arith))
        | inr best ↦ inl (ground arith, hit)
      ]
    ]
  ]

  pub Offers-dispatch : (routes : Routes H) → dispatch routes r ≡ handled_by h → Offers routes r h
  unfolding dispatch
  Offers-dispatch routes e = elim (Option-cases (find r routes)) [
    | inl none_fits ↦ absurd (ground arith)
    | inr (route, f) ↦ Offers-find routes route f (ground arith)
  ]

-- The paths that a pattern of names fits.
pub fits-one :
    (name : String) (path : List String)
    → fits_rest false (after_segments (exactly name ∷ []) path) ≡ true
    → path ≡ name ∷ []
unfolding after_segments
fits-one name [] h = absurd (ground arith)
fits-one name (a ∷ []) h = ground (arith, eq_iff name a)
fits-one name (a ∷ b ∷ path) h = absurd (ground arith)

pub fits-three :
    (x y z : String) (path : List String)
    → fits_rest false (after_segments (exactly x ∷ exactly y ∷ exactly z ∷ []) path) ≡ true
    → path ≡ x ∷ y ∷ z ∷ []
unfolding after_segments
fits-three x y z [] h = absurd (ground arith)
fits-three x y z (a ∷ []) h = absurd (ground arith)
fits-three x y z (a ∷ b ∷ []) h = absurd (ground arith)
fits-three x y z (a ∷ b ∷ c ∷ []) h = ground (arith, eq_iff x a, eq_iff y b, eq_iff z c)
fits-three x y z (a ∷ b ∷ c ∷ d ∷ path) h = absurd (ground arith)
