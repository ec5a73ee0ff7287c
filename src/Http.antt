-- ===== src/Http.antt =====
-- net/http's ServeMux, as far as internal/cli/start.go, internal/api/server.go and
-- internal/admin/server.go use it. A path is the list of its segments: "/a/b" is `a`, `b`, and what
-- ends in a slash ends in an empty segment; the path is clean.
pub mod Found
use relayly.Base.{
  String, Bool, true, false, not, ◌&&◌, ◌||◌, Option, none, some, List, [], ◌∷◌, ◌++◌, ◌==◌,
  string_eq, length, ltb, if◌then◌else◌,
}

pub record Request : Type 0 where
  pub method : String
  pub path : List String

pub data Segment : Type 0 where
  exactly : String → Segment
  any : Segment

-- A pattern whose path ends in a slash is a subtree: it stands for every path below it.
pub record Pattern : Type 0 where
  pub method : Option String
  pub segments : List Segment
  pub subtree : Bool

abbrev pub fits_segment : Segment → String → Bool
fits_segment (exactly name) s = name == s
fits_segment any s = true

-- What of the path is left after the segments.
unfoldable pub after_segments : List Segment → List String → Option (List String)
after_segments [] path = some path
after_segments (p ∷ ps) [] = none
after_segments (p ∷ ps) (s ∷ path) =
    let rest = after_segments ps path in if fits_segment p s then rest else none

abbrev pub fits_rest : Bool → Option (List String) → Bool
fits_rest subtree none = false
fits_rest true (some []) = false
fits_rest true (some (s ∷ rest)) = true
fits_rest false (some []) = true
fits_rest false (some (s ∷ rest)) = false

unfoldable pub fits_path : List String → Pattern → Bool
fits_path path p = fits_rest p.subtree (after_segments p.segments path)

-- "GET" stands for HEAD too.
unfoldable pub fits_method : String → Option String → Bool
fits_method method none = true
fits_method method (some m) = method == m || (m == "GET" && method == "HEAD")

abbrev pub fits : Request → Pattern → Bool
fits r p = fits_method r.method p.method && fits_path r.path p

-- An exact pattern comes before a subtree, and a deeper subtree before another. Of the tables'
-- patterns no two exact ones fit one request.
unfoldable pub comes_before : Pattern → Pattern → Bool
comes_before p q =
    if p.subtree then q.subtree && ltb (length q.segments) (length p.segments) else q.subtree

-- Nothing but the subtree's own slash is left: the match is exact.
abbrev pub is_bare : Option (List String) → Bool
is_bare (some (s ∷ [])) = s == ""
is_bare _ = false

unfoldable pub is_exact : List String → Pattern → Bool
is_exact path p = not p.subtree || is_bare (after_segments p.segments path)

pub data Answer (H : Type 0) : Type 0 where
  handled_by : H → Answer H
  moved_permanently method_not_allowed not_found : Answer H

abbrev pub Routes : Type 0 → Type 0
Routes H = List (Pattern × H)

-- The path with a slash at its end.
abbrev pub slashed : Request → Request
slashed r = record r { path = r.path ++ "" ∷ [] }

unfoldable pub ends_in_slash : List String → Bool
ends_in_slash [] = false
ends_in_slash (s ∷ []) = s == ""
ends_in_slash (s ∷ path) = ends_in_slash path

module _ {H : Type 0} where
  abbrev pub better : Pattern × H → Option (Pattern × H) → Pattern × H
  better r none = r
  better r (some s) = if comes_before s.0 r.0 then s else r

  -- The route that fits best.
  unfoldable pub find : Request → Routes H → Option (Pattern × H)
  find r [] = none
  find r (route ∷ routes) =
      let rest = find r routes in if fits r route.0 then some (better route rest) else rest

  unfoldable pub any_method : List String → Routes H → Bool
  any_method path [] = false
  any_method path (route ∷ routes) =
      let rest = any_method path routes in fits_path path route.0 || rest

  abbrev pub exact_hit : List String → Option (Pattern × H) → Bool
  exact_hit path none = false
  exact_hit path (some route) = is_exact path route.0

  -- A path that only a subtree's slash is missing to is sent there; one that fits for another
  -- method only is refused as such.
  unfoldable pub dispatch : Routes H → Request → Answer H
  dispatch routes r =
      if not (exact_hit r.path (find r routes))
        && not (ends_in_slash r.path)
        && exact_hit (slashed r).path (find (slashed r) routes)
      then moved_permanently
      else (elim (find r routes) [
        | some route ↦ handled_by route.1
        | none ↦ if any_method r.path routes then method_not_allowed else not_found
      ])
