-- ===== src/Web/Login/Once.antt =====
-- The first owner is set up once, by whoever holds the bootstrap token (app/web/auth_routes.py).
use wolt.Prelude.{String, false, ◌≡◌, is_empty}
use wolt.Errors.{ok}
use wolt.Db.{Db}
use wolt.Auth.{AuthenticationResult}
use wolt.Auth.Owner.{create_owner}
use wolt.Web.Login.{AuthSite, Gate, Visit, visitor_ip, lifetime}

module _ (site : AuthSite) (v : Visit) (token username email password : String) where
  IsEntitled : Gate → Gate → Type 0
  IsEntitled g g' =
      (token ≡ site.bootstrap_token)
      × (is_empty site.bootstrap_token ≡ false)
      × ((x : AuthenticationResult) × (create_owner site.library (lifetime site) v.draws username
              email password (visitor_ip v) g.db
            ≡ (ok x, g'.db)))
