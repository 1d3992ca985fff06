-- ===== src/Site/RefusalLaws.antt =====
-- Which requests the admin site serves, and what it does for the others.
use homelab_db_provisioner.Prelude.{
  ◌≡◌, ◌⊎◌, false, Option, none, some, List, Text, txt, text_eq, ℤ, ok,
}
use homelab_db_provisioner.World.{Env, Event, Exec}
use homelab_db_provisioner.Http.{http_error, no_content}
use homelab_db_provisioner.Site.Request.{HttpRequest, Settings}
use homelab_db_provisioner.Site.Serve.{Content, plain, Reply, unauthorized, serve_route}

-- A request that the site has to serve: it comes with exactly the login of the settings, is not
-- refused as cross-origin, and does not ask for the icon.
pub record IsAdmitted (refusal : HttpRequest → Option Text) (settings : Settings) (r : HttpRequest)
    : Type 0 where
  pub right_login : r.login ≡ some (settings.admin_user, settings.admin_password)
  pub same_origin : refusal r ≡ none
  pub no_icon : text_eq r.path (txt "/favicon.ico") ≡ false

-- Nothing but an error, or the empty answer for the icon.
pub data IsRefusal : Content → Type 0 where
  no_login : IsRefusal (plain unauthorized)
  cross_origin : (message : Text) → IsRefusal (plain (http_error 403 message))
  icon : IsRefusal (plain no_content)

-- The computation makes no call, and its content refuses.
abbrev pub Refuses : Exec ⊥ Reply → List Event → Type 0
Refuses m t = (r : Reply) × (m t ≡ (ok r, t)) × IsRefusal r.content

module _ (env : Env) (refusal : HttpRequest → Option Text) (days_since : Text → Option ℤ)
    (settings : Settings) (manager : Option Text) where
  -- The request is served as its route says, or it is not to be served and is refused.
  abbrev Guarded : Exec ⊥ Reply → HttpRequest → List Event → Type 0
  Guarded m r t =
      (IsAdmitted refusal settings r
        × (m t ≡ serve_route env refusal days_since settings manager r t))
      ⊎ ((IsAdmitted refusal settings r → ⊥) × Refuses m t)
