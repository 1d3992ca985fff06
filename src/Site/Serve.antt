-- ===== src/Site/Serve.antt =====
-- The handler that `newAdminHandler` returns, with `basicAuth`. The test of
-- `http.CrossOriginProtection` is a parameter: the error with which it refuses a request, if it does.
use homelab_db_provisioner.Prelude.{
  Bool, false, ◌&&◌, Option, none, some, List, [], ◌∷◌, ◌++◌, Text, txt, text_eq, ℤ, Result, ok,
  err, if◌then◌else◌,
}
use homelab_db_provisioner.World.{Env, Exec, pure, ◌>>=◌, try}
use homelab_db_provisioner.Http.{Response, http_error, page, no_content}
use homelab_db_provisioner.Site.Request.{HttpRequest, Settings}
use homelab_db_provisioner.Site.Routes.{routes, find_route}
use homelab_db_provisioner.Site.Page.{AdminTemplateData, render_index}
use homelab_db_provisioner.Site.Handlers.{handle}

-- What a client gets: a response, or the page as the template renders this data.
pub data Content : Type 0 where
  plain : Response → Content
  rendered : AdminTemplateData → Content

pub record Reply : Type 0 where
  pub headers : List (Text × Text)
  pub content : Content

-- `subtle.ConstantTimeCompare(...) == 1` for both, and the request has credentials at all.
unfoldable pub is_authorized : Settings → Option (Text × Text) → Bool
is_authorized settings none = false
is_authorized settings (some (user, password)) =
    text_eq user settings.admin_user && text_eq password settings.admin_password

abbrev pub unauthorized : Response
unauthorized = http_error 401 (txt "Unauthorized")

abbrev response_of : Result Response Response → Response
response_of (ok r) = r
response_of (err r) = r

-- The headers against framing.
unfoldable pub frame_headers : List (Text × Text)
frame_headers =
    (txt "X-Frame-Options", txt "DENY")
    ∷ ((txt "Content-Security-Policy", txt "frame-ancestors 'none'") ∷ [])

-- A page with a password is not to be cached.
unfoldable pub cache_headers : Response → List (Text × Text)
cache_headers (page cfg msg (some reveal)) = (txt "Cache-Control", txt "no-store") ∷ []
cache_headers _ = []

unfoldable pub reply : List (Text × Text) → Content → Reply
unfolding frame_headers
reply headers content = record { headers = frame_headers ++ headers; content = content }

module _ (env : Env) (refusal : HttpRequest → Option Text) (days_since : Text → Option ℤ)
    (settings : Settings) (manager : Option Text) where
  -- A page is rendered, any other response goes out as it is.
  unfoldable pub render : Response → Exec ⊥ Content
  render (page cfg msg reveal) = do
    template_data ← render_index env days_since settings manager cfg msg reveal
    pure (rendered template_data)
  render response = pure (plain response)

  -- The mux.
  unfoldable pub serve_route : HttpRequest → Exec ⊥ Reply
  serve_route r = do
    let (handler, values) = find_route routes r.method r.path
    result ← try (handle env manager r values handler)
    content ← render (response_of result)
    pure (reply (cache_headers (response_of result)) content)

  unfoldable pub basic_auth : HttpRequest → Exec ⊥ Reply
  unfolding serve_route
  basic_auth r =
      if is_authorized settings r.login
      then serve_route r
      else pure
          (reply ((txt "WWW-Authenticate", txt "Basic realm=\"Admin\"") ∷ []) (plain unauthorized))

  -- `protected`: a cross-origin request is refused before its credentials are looked at.
  unfoldable pub protected : Option Text → HttpRequest → Exec ⊥ Reply
  unfolding basic_auth
  protected (some message) r = pure (reply [] (plain (http_error 403 message)))
  protected none r = basic_auth r

  unfoldable pub serve : HttpRequest → Exec ⊥ Reply
  unfolding protected
  serve r =
      if text_eq r.path (txt "/favicon.ico")
      then pure (reply [] (plain no_content))
      else protected (refusal r) r
