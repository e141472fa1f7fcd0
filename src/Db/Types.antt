-- ===== src/Db/Types.antt =====
-- The structs of isk/db. Ids are only compared, with one another and with 0, so they are numbers.
-- A `time.Time` is the number of nanoseconds since the zero time, so that `IsZero` is a test for 0
-- and `Before` is the order of numbers. A counter (int64) is its bit pattern, and an amount of ISK
-- (float64) is a value of the type `F`.
use esi_isk.Base.{ℕ, String, Bool, List, Option}
use esi_isk.Base.Int.{ℤ}

-- `pq.NullTime`
pub record NullTime : Type 0 where
  pub time : ℕ
  pub valid : Bool

-- `sql.NullInt64`, of an id
pub record NullInt64 : Type 0 where
  pub int64 : ℕ
  pub valid : Bool

-- `sql.NullString`
pub record NullString : Type 0 where
  pub string : String
  pub valid : Bool

pub record Name : Type 0 where
  pub id : ℕ
  pub name : String

-- The pointers are `nil` where the field is `none`.
pub record Affiliation : Type 0 where
  pub character : Option Name
  pub corporation : Option Name
  pub alliance : Option Name

pub record Donation (F : Type 0) : Type 0 where
  pub id : ℕ
  pub donator : ℕ
  pub recipient : ℕ
  pub timestamp : ℕ
  pub note : String
  pub amount : F

pub record Item : Type 0 where
  pub id : ℕ
  pub contract_id : ℕ
  pub type_id : ℕ
  pub quantity : ℤ
  pub item_id : ℕ

pub record Contract (F : Type 0) : Type 0 where
  pub id : ℕ
  pub donator : ℕ
  pub receiver : ℕ
  pub location : ℕ
  pub issued : ℕ
  pub expires : ℕ
  pub accepted : Bool
  pub value : F
  pub note : String
  pub items : List Item

pub record CharacterRow (F : Type 0) : Type 0 where
  pub id : ℕ
  pub corporation_id : ℕ
  pub alliance_id : ℕ
  pub received : ℕ
  pub received_isk : F
  pub received_30 : ℕ
  pub received_isk_30 : F
  pub donated : ℕ
  pub donated_isk : F
  pub donated_30 : ℕ
  pub donated_isk_30 : F
  pub last_donated : NullTime
  pub last_received : NullTime
  pub good_standing : Bool

pub record Character (F : Type 0) : Type 0 where
  pub id : ℕ
  pub name : String
  pub corporation_id : ℕ
  pub corporation_name : String
  pub alliance_id : ℕ
  pub alliance_name : String
  pub received : ℕ
  pub received_isk : F
  pub received_30 : ℕ
  pub received_isk_30 : F
  pub donated : ℕ
  pub donated_isk : F
  pub donated_30 : ℕ
  pub donated_isk_30 : F
  pub last_donated : ℕ
  pub last_received : ℕ
  pub good_standing : Bool

pub record User : Type 0 where
  pub refresh_token : String
  pub access_token : String
  pub owner_hash : String
  pub character_id : ℕ
  pub last_journal_id : NullInt64
  pub last_contract_id : NullInt64
  pub access_expires : ℕ
  pub last_processed : Option ℕ

pub record CharDetails (F : Type 0) : Type 0 where
  pub character : Character F
  pub donations : List (Donation F)
  pub contracts : List (Contract F)
  pub donated : List (Donation F)
  pub contracted : List (Contract F)
