-- ===== src/Admin/Routes.antt =====
-- internal/admin/server.go: the routes of the admin server and how a page is rendered. Whether the
-- templates of a page parse is an argument; that a parsed template renders is taken for granted.
use relayly.Base.{
  ℕ, ◌≡◌, ◌≢◌, refl, String, Bool, true, false, ◌||◌, Option, some, List, [], ◌∷◌, ◌==◌, string_eq,
  eq_iff, arith, if◌then◌else◌,
}
use relayly.Database.{list_devices}
use relayly.Relay.Hub.{Server, SameServer}
use relayly.Http.{
  Request, Segment, exactly, any, Pattern, Routes, Answer, handled_by, moved_permanently,
  method_not_allowed, not_found, dispatch, fits_method,
}
use relayly.Http.Found.{Offers-dispatch}
use relayly.Admin.{
  Reply, http_error, page, StatusResponse, handle_index, handle_devices, handle_devices_partial,
  handle_delete_device, handle_pair_devices, api_status, api_devices,
}

pub data AdminRoute : Type 0 where
  static favicon index devices devices_partial delete_device pair_devices show_status
        list_devices_json :
      AdminRoute

abbrev pattern' : String → List Segment → Bool → Pattern
pattern' method segments subtree = record {
  method = some method;
  segments = segments;
  subtree = subtree;
}

-- `registerRoutes`
abbrev pub admin_routes : Routes AdminRoute
admin_routes =
    (pattern' "GET" (exactly "static" ∷ []) true, static)
    ∷ (pattern' "GET" (exactly "favicon.ico" ∷ []) false, favicon)
    ∷ (pattern' "GET" [] true, index)
    ∷ (pattern' "GET" (exactly "devices" ∷ []) false, devices)
    ∷ (pattern' "GET" (exactly "htmx" ∷ exactly "devices" ∷ []) false, devices_partial)
    ∷ (pattern' "DELETE" (exactly "htmx" ∷ exactly "devices" ∷ any ∷ []) false, delete_device)
    ∷ (pattern' "POST" (exactly "htmx" ∷ exactly "pair" ∷ []) false, pair_devices)
    ∷ (pattern' "GET" (exactly "api" ∷ exactly "v1" ∷ exactly "status" ∷ []) false, show_status)
    ∷ (
      pattern' "GET" (exactly "api" ∷ exactly "v1" ∷ exactly "devices" ∷ []) false,
      list_devices_json,
    )
    ∷ []

-- What libraries make of a request, the clock, and Go's walk over a map of two.
pub record Call : Type 0 where
  pub request : Request
  pub now : ℕ
  pub form : Option (String × String)
  pub swapped : Bool

pub data Answered : Type 0 where
  reply : Reply → Answered
  status_json : StatusResponse → Answered
  static_file : List String → Answered
  redirect : ℕ → String → Answered
  mux_error : ℕ → Answered

-- `r.PathValue("id")`, the third segment.
unfoldable pub path_id : List String → String
path_id (a ∷ b ∷ id ∷ path) = id
path_id path = ""

-- `strings.HasSuffix`
unfoldable pub has_suffix : String → String → Bool
has_suffix String.[] suffix = String.[] == suffix
has_suffix (String.◌∷◌ c s) suffix =
    let rest = has_suffix s suffix in String.◌∷◌ c s == suffix || rest

-- The files that are parsed for a template: a page has the base and itself besides the partials.
unfoldable pub template_files : String → List String
template_files name =
    if has_suffix name ".html"
    then "base.html" ∷ "partials/*.html" ∷ name ∷ []
    else "partials/*.html" ∷ []

-- `render`: a template that does not parse is an error in place of the page.
unfoldable pub render : (List String → Bool) → Reply → Reply
render parses (page p) = if parses (template_files p.template) then page p else http_error 500
render parses r = r

abbrev rendered : (List String → Bool) → Reply × Server → Answered × Server
rendered parses r = (reply (render parses r.0), r.1)

module _ (parses : List String → Bool) (version : String) (start_at : ℕ) where
  unfoldable pub serve_admin_route : Call → AdminRoute → Server → Answered × Server
  serve_admin_route call static w = (static_file call.request.path, w)
  serve_admin_route call favicon w = (redirect 301 "/static/favicon.ico", w)
  serve_admin_route call index w = rendered parses (handle_index version w)
  serve_admin_route call devices w = rendered parses (handle_devices version w)
  serve_admin_route call devices_partial w = rendered parses (handle_devices_partial w)
  serve_admin_route call delete_device w =
      rendered parses (handle_delete_device (path_id call.request.path) w)
  serve_admin_route call pair_devices w =
      rendered parses (handle_pair_devices call.swapped call.form w)
  serve_admin_route call show_status w = (status_json (api_status version start_at call.now w), w)
  serve_admin_route call list_devices_json w = rendered parses (api_devices w)

  abbrev routed : Call → Answer AdminRoute → Server → Answered × Server
  routed call (handled_by h) w = serve_admin_route call h w
  routed call moved_permanently w = (mux_error 301, w)
  routed call method_not_allowed w = (mux_error 405, w)
  routed call not_found w = (mux_error 404, w)

  -- `ServeHTTP`
  unfoldable pub serve_http : Call → Server → Answered × Server
  serve_http call w = routed call (dispatch admin_routes call.request) w

  delete-method :
      (r : Request) → dispatch admin_routes r ≡ handled_by delete_device → r.method ≡ "DELETE"
  unfolding fits_method
  delete-method r h =
      let o = Offers-dispatch r delete_device admin_routes h in
      ground (arith, eq_iff r.method "DELETE")

  pair-method :
      (r : Request) → dispatch admin_routes r ≡ handled_by pair_devices → r.method ≡ "POST"
  unfolding fits_method
  pair-method r h =
      let o = Offers-dispatch r pair_devices admin_routes h in
      ground (arith, eq_iff r.method "POST")

  answer-SameServer :
      (call : Call) (w : Server) (a : Answer AdminRoute)
      → call.request.method ≢ "DELETE"
      → call.request.method ≢ "POST"
      → dispatch admin_routes call.request ≡ a
      → SameServer (routed call a w).1 w
  unfolding serve_admin_route
  answer-SameServer call w (handled_by static) d p e = refl
  answer-SameServer call w (handled_by favicon) d p e = refl
  answer-SameServer call w (handled_by index) d p e =
      unfold handle_index list_devices in ground arith
  answer-SameServer call w (handled_by devices) d p e =
      unfold handle_devices list_devices in ground arith
  answer-SameServer call w (handled_by devices_partial) d p e =
      unfold handle_devices_partial list_devices in ground arith
  answer-SameServer call w (handled_by delete_device) d p e =
      absurd (d (delete-method call.request e))
  answer-SameServer call w (handled_by pair_devices) d p e = absurd (p (pair-method call.request e))
  answer-SameServer call w (handled_by show_status) d p e = refl
  answer-SameServer call w (handled_by list_devices_json) d p e =
      unfold api_devices list_devices in ground arith
  answer-SameServer call w moved_permanently d p e = refl
  answer-SameServer call w method_not_allowed d p e = refl
  answer-SameServer call w not_found d p e = refl

  -- To look at the admin pages changes nothing: whatever is asked for with another method than
  -- DELETE and POST, whether or not the driver runs the statements, leaves the connections, the
  -- registry, the pairing codes and the rows as they are.
  pub serve_http-SameServer :
      (call : Call) (w : Server)
      → call.request.method ≢ "DELETE"
      → call.request.method ≢ "POST"
      → SameServer (serve_http call w).1 w
  unfolding serve_http
  serve_http-SameServer call w d p =
      answer-SameServer call w (dispatch admin_routes call.request) d p refl
