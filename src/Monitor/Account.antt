-- ===== src/Monitor/Account.antt =====
-- A monitored account: `Project` of internal/model/model.go, as far as a balance check reads it.
use quotapulse.Base.{Bool}
use quotapulse.Base.Text.{Text}
use quotapulse.Runway.{Floats}

-- An account. The id is a hash of the provider and the name, the cache's key one of the provider and
-- the credential.
pub record Project (M : Floats) : Type 0 where
  pub id : Text
  pub name : Text
  pub provider : Text
  pub api_key : Text
  pub cache_key : Text
  pub threshold : M.F
  pub enabled : Bool
