-- ===== src/Config.antt =====
-- backend/internal/config/config.go: the vendors that the gateway routes to.
pub mod Prices
pub mod Snapshot
pub mod Validate
use songguo.Prelude.{List, Option, String, Bool}
use songguo.Prelude.Int.{ℤ}
use songguo.Prelude.Map.{Map}
use songguo.Catalog.{Cost}

pub record Credential : Type 0 where
  pub id : String
  pub api_key : String

pub record Proxy : Type 0 where
  pub id : String
  pub name : String
  pub kind : String
  pub host : String
  pub port : ℤ
  pub username : String
  pub password : String

pub record Price : Type 0 where
  pub cost : Cost
  pub source : String

pub record ModelRoute : Type 0 where
  pub enabled : Bool
  pub priority : ℤ
  pub weight : ℤ

pub record Vendor : Type 0 where
  pub name : String
  pub origin : String
  pub adapter : String
  pub served_models : List String
  pub priority : ℤ
  pub weight : ℤ
  pub model_routes : Map ModelRoute
  pub credential : Credential
  pub proxy : Option Proxy
  pub prices : Map Price
  pub wires : List String
  pub endpoints : Map String
  pub allow_unmatched : Bool
  pub max_concurrency : ℤ
  pub quirks : Map String
