-- ===== src/Config/Hook.antt =====
-- pkg/config/hook.go: an action to run after secrets, manifests or files change.
pub mod Normalize
pub mod Runnable
mod Tests
use picolet.Prelude.{ℕ, String, Bool, List, ◌==◌}
use picolet.Prelude.Int.{ℤ}

-- `DefaultMaxRetries`
abbrev pub default_max_retries : ℕ
default_max_retries = 10

pub record Hook : Type 0 where
  pub name : String
  pub secrets : List String
  pub manifests : List String
  pub files : List String
  pub unit : String
  pub action : String
  pub method : String
  pub url : String
  pub health_url : String
  pub container : String
  pub signal : String
  pub on_failure : String
  pub max_retries : ℤ

-- A failed run falls back to restarting the unit.
unfoldable pub fallback_to_restart : Hook → Bool
fallback_to_restart h = h.on_failure == "restart"
