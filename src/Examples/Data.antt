-- ===== src/Examples/Data.antt =====
-- Characters, tables and gifts for the examples.
use esi_isk.Base.{ℕ, String, true, false, List, [], ◌∷◌, none, some}
use esi_isk.Base.Int.{ℤ, pos}
use esi_isk.Cx.{Options}
use esi_isk.Db.Types.{
  CharDetails, NullString, Name, Affiliation, Donation, Contract, CharacterRow, User,
}
use esi_isk.Db.PrefTypes.{Prefs, DbPreferences}
use esi_isk.Db.Store.{Db}
use esi_isk.Api.Format.{Formats}
use esi_isk.Db.Characters.Rows.{to_character}
use esi_isk.Examples.Cents.{cents}

abbrev pub gift_of_7_to_8 : Donation ℤ
gift_of_7_to_8 = record {
  id = 1;
  donator = 7;
  recipient = 8;
  timestamp = 100;
  note = "thanks";
  amount = pos 5000;
}

abbrev pub gift_of_8_to_7 : Donation ℤ
gift_of_8_to_7 = record {
  id = 2;
  donator = 8;
  recipient = 7;
  timestamp = 200;
  note = "";
  amount = pos 200;
}

abbrev pub gifts : List (Donation ℤ)
gifts = gift_of_7_to_8 ∷ gift_of_8_to_7 ∷ []

abbrev pub contract_of_7_to_8 : Contract ℤ
contract_of_7_to_8 = record {
  id = 3;
  donator = 7;
  receiver = 8;
  location = 60003760;
  issued = 150;
  expires = 900;
  accepted = true;
  value = pos 1000;
  note = "a ship";
  items = [];
}

-- The row of character 8, who has given once.
abbrev pub row_of_8 : CharacterRow ℤ
row_of_8 = record {
  id = 8;
  corporation_id = 90;
  alliance_id = 0;
  received = 0;
  received_isk = pos 0;
  received_30 = 0;
  received_isk_30 = pos 0;
  donated = 1;
  donated_isk = pos 300;
  donated_30 = 1;
  donated_isk_30 = pos 300;
  last_donated = record { time = 50; valid = true };
  last_received = record { time = 0; valid = false };
  good_standing = false;
}

abbrev pub name_of : ℕ → String → Name
name_of id name = record { id = id; name = name }

abbrev pub affiliations : List Affiliation
affiliations =
    record {
      character = some (name_of 7 "Seven");
      corporation = some (name_of 90 "Corp");
      alliance = none;
    }
    ∷ record {
      character = some (name_of 8 "Eight");
      corporation = some (name_of 91 "Other");
      alliance = none;
    }
    ∷ []

abbrev pub user_of_8 : User
user_of_8 = record {
  refresh_token = "r";
  access_token = "a";
  owner_hash = "o";
  character_id = 8;
  last_journal_id = record { int64 = 0; valid = false };
  last_contract_id = record { int64 = 0; valid = false };
  access_expires = 0;
  last_processed = none;
}

abbrev no_text : NullString
no_text = record { string = ""; valid = false }

abbrev pub preferences_of_8 : DbPreferences ℤ
preferences_of_8 = record {
  character_id = 8;
  donation_rows = pos 5;
  contract_rows = pos 5;
  combined_rows = pos 5;
  donation_max_age = pos 0;
  contract_max_age = pos 0;
  combined_max_age = pos 0;
  donation_minimum = pos 10;
  contract_minimum = pos 10;
  combined_minimum_donation = pos 10;
  combined_minimum_contract = pos 10;
  donation_header = no_text;
  donation_footer = no_text;
  donation_pattern = no_text;
  contract_header = no_text;
  contract_footer = no_text;
  contract_pattern = no_text;
  combined_header = no_text;
  combined_footer = no_text;
  combined_donation_pattern = no_text;
  combined_contract_pattern = no_text;
  donation_passphrase = no_text;
  contract_passphrase = no_text;
  combined_passphrase = no_text;
}

-- The tables, with a database that answers every call.
abbrev pub tables : Db ℤ
tables = record {
  characters = row_of_8 ∷ [];
  donations = gift_of_7_to_8 ∷ [];
  contracts = [];
  contract_items = [];
  names = name_of 7 "Seven" ∷ name_of 8 "Eight" ∷ name_of 90 "Corp" ∷ [];
  users = user_of_8 ∷ [];
  preferences = preferences_of_8 ∷ [];
  now = 1000;
  calls = 0;
  answers = λ _. true;
}

abbrev pub options : Options
options = record {
  production = false;
  debug = false;
  https = false;
  port = pos 8080;
  cache_time = pos 300;
  cache_resp = pos 60;
  max_pref_rows = pos 20;
  character_id = 8;
  max_pref_len = pos 400;
  max_pattern_len = pos 400;
  hostname = "localhost";
  esi = "esi";
  app_secret = "s";
  has_auth = true;
}

abbrev pub prefs : Prefs ℤ
prefs = record {
  header = "";
  footer = "";
  pattern = "%NAME% got %AMOUNT%";
  passphrase = "";
  rows = pos 3;
  max_age = pos 0;
  minimum = pos 300;
}

-- Formats that print very little.
abbrev pub plain : Formats ℤ
plain = record {
  amount = λ _. "n";
  amount_isk = λ _. "n";
  amount_raw = λ _. "n";
  amount_raw_isk = λ _. "n";
  dec = λ _. "n";
  pad2 = λ _. "n";
  join = λ _. "j";
  day = λ t. t;
  month = λ _. "January";
  year = λ t. t;
  hour = λ t. t;
  minute = λ t. t;
  second = λ t. t;
  iso = λ _. "i";
  replace_all = λ s _ _. s;
  visit = λ l. l;
}

abbrev pub details : CharDetails ℤ
details = record {
  character = to_character row_of_8;
  donations = gifts;
  contracts = contract_of_7_to_8 ∷ [];
  donated = [];
  contracted = [];
}
