-- ===== src/Access/Guard.antt =====
-- Nothing behind the guard is served without a credential.
use quotapulse.Base.Text.{Text}
