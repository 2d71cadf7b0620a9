-- ===== src/Catalog.antt =====
-- backend/internal/catalog/catalog.go: the rates of a model. Rates are integers in a fixed small
-- unit of money, where the source has float64 dollars.
pub mod Clock
pub mod Rates
pub mod Windows
pub mod Reached
pub mod Brackets
pub mod Tests
use songguo.Prelude.{List, String}
use songguo.Prelude.Int.{ℤ}

pub record TierBound : Type 0 where
  pub kind : String
  pub size : ℤ

pub record CostTier : Type 0 where
  pub input : ℤ
  pub output : ℤ
  pub cache_read : ℤ
  pub cache_write : ℤ
  pub tier : TierBound

pub record Window : Type 0 where
  pub kind : String
  pub offset : String
  pub days : List String
  pub start : String
  pub end : String

pub record CostSchedule : Type 0 where
  pub input : ℤ
  pub output : ℤ
  pub cache_read : ℤ
  pub cache_write : ℤ
  pub when : List Window

pub record Cost : Type 0 where
  pub input : ℤ
  pub output : ℤ
  pub cache_read : ℤ
  pub cache_write : ℤ
  pub character : ℤ
  pub second : ℤ
  pub image : ℤ
  pub call : ℤ
  pub tiers : List CostTier
  pub schedules : List CostSchedule
