-- ===== src/Web/Identity/Guarded.antt =====
-- Who can run the routes of app/web/identity_routes.py that manage users and mail.
use wolt.Engine.{World}
use wolt.Web.Access.{Site, Request, is_owner}
use wolt.Web.Access.Guarded.{IsGuarded, as_owner-IsGuarded}
use wolt.Web.Identity.{
  Post, IdentityCall, get_users, get_smtp, invite, put_user, post_revoke, put_smtp, post_smtp_test,
  handle_identity,
}

-- Each of these routes either was called with the cookie of a live session of an enabled owner, or it
-- answers without a body and leaves the database and the runtime as they were.
pub handle_identity-IsGuarded :
    (post : Post) (site : Site) (q : Request) (c : IdentityCall) (w : World)
    → IsGuarded site q is_owner w (handle_identity post site q c w)
unfolding handle_identity
handle_identity-IsGuarded post site q get_users w = as_owner-IsGuarded site q w _
handle_identity-IsGuarded post site q get_smtp w = as_owner-IsGuarded site q w _
handle_identity-IsGuarded post site q (invite d u e r) w = as_owner-IsGuarded site q w _
handle_identity-IsGuarded post site q (put_user i r e) w = as_owner-IsGuarded site q w _
handle_identity-IsGuarded post site q (post_revoke i) w = as_owner-IsGuarded site q w _
handle_identity-IsGuarded post site q (put_smtp p) w = as_owner-IsGuarded site q w _
handle_identity-IsGuarded post site q (post_smtp_test p) w = as_owner-IsGuarded site q w _
