-- ===== src/Worker/Esi.antt =====
-- What the worker takes from ESI, the game's web service, through a client that is not part of the
-- program. Each record has the fields that the program reads. A request returns a value or an error.
use esi_isk.Base.{ℕ, String, List}
use esi_isk.Base.Int.{ℤ}
use esi_isk.Db.Store.{Result}

-- an entry of a wallet journal
pub record JournalEntry (F : Type 0) : Type 0 where
  pub id : ℕ
  pub ref_type : String
  pub first_party_id : ℕ
  pub second_party_id : ℕ
  pub date : ℕ
  pub reason : String
  pub amount : F

-- a contract
pub record EsiContract (F : Type 0) : Type 0 where
  pub contract_id : ℕ
  pub issuer_id : ℕ
  pub assignee_id : ℕ
  pub start_location_id : ℕ
  pub date_issued : ℕ
  pub date_expired : ℕ
  pub status : String
  pub title : String
  pub kind : String
  pub price : F

-- an item of a contract
pub record EsiItem : Type 0 where
  pub record_id : ℕ
  pub type_id : ℕ
  pub quantity : ℤ

-- an answer of the names endpoint
pub record EsiName : Type 0 where
  pub id : ℕ
  pub name : String
  pub category : String

-- A list that ESI serves in pages: the first page with its header X-Pages, each further page, and
-- the order in which the answers to the parallel requests for the further pages arrive.
pub record Pages (A : Type 0) : Type 0 where
  pub first : Result (List A)
  pub x_pages : String
  pub page : ℕ → Result (List A)
  pub arrive : List ℕ → List ℕ

-- the endpoints for names, corporations and characters
pub record Directory : Type 0 where
  pub universe_names : List ℕ → Result (List EsiName)
  -- the alliance of a corporation, 0 for none
  pub corporation_alliance : ℕ → Result ℕ
  -- the corporation of a character
  pub character_corporation : ℕ → Result ℕ
