-- ===== src/Cx.antt =====
-- The runtime options of isk/cx/options.go, the fields that the modelled code reads. An `int` or
-- `int32` is an integer.
pub mod Keys
pub mod Flags
use esi_isk.Base.{ℕ, String, Bool}
use esi_isk.Base.Int.{ℤ}

pub record Options : Type 0 where
  pub production : Bool
  pub debug : Bool
  pub https : Bool
  pub port : ℤ
  pub cache_time : ℤ
  pub cache_resp : ℤ
  pub max_pref_rows : ℤ
  -- the character whose donations count towards standing
  pub character_id : ℕ
  pub max_pref_len : ℤ
  pub max_pattern_len : ℤ
  pub hostname : String
  pub esi : String
  pub app_secret : String
  -- whether an oauth config was found
  pub has_auth : Bool
