-- ===== src/Web/Login/Me.antt =====
-- The cookie that the login route sets (app/web/auth_routes.py).
use wolt.Db.{Db}
