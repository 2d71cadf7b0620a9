-- ===== src/Manager.antt =====
-- backend/internal/configsvc/manager.go: stored providers as the vendors of a configuration. The rows
-- are those of backend/internal/store/providers.go, less what is only displayed.
pub mod Prices
pub mod Table
pub mod Groups
pub mod Reload
pub mod Tests
use songguo.Prelude.{Bool, Option, List, String}
use songguo.Prelude.Int.{ℤ}
use songguo.Prelude.Map.{Map}
use songguo.Catalog.{Cost}

pub record ProviderModel : Type 0 where
  pub model : String
  pub cost : Cost
  pub price_override : Bool
  pub routing_enabled : Bool
  pub routing_configured : Bool
  pub priority_override : Option ℤ
  pub weight_override : Option ℤ

pub record ProviderEndpoint : Type 0 where
  pub wire : String
  pub endpoint : String
  pub adapter : String

pub record Provider : Type 0 where
  pub id : String
  pub name : String
  pub priority : ℤ
  pub weight : ℤ
  pub enabled : Bool
  pub catalog_id : String
  pub api_key : String
  pub proxy_id : String
  pub allow_unmatched : Bool
  pub max_concurrency : ℤ
  pub quirks : Map String
  pub models : List ProviderModel
  pub endpoints : List ProviderEndpoint
