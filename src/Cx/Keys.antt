-- ===== src/Cx/Keys.antt =====
-- isk/cx/keys.go: the names of the values that a context carries, and of the prepared statements. In Go
-- a key is its string, so two keys with one string would be one key.
use esi_isk.Base.{
  String, ◌≡◌, refl, List, [], ◌∷◌, Option, none, some, str_eq, if◌then◌else◌, ap, sym, ◌∙◌, arith,
}

pub data Key : Type 0 where
  opts : Key
  provider : Key
  verifier : Key
  db_key : Key
  cache : Key
  adapter : Key
  prices : Key
  statements : Key
  state_store : Key
  sso_client : Key
  client : Key
  http_client : Key
  authenticator : Key
  stmt_top_received : Key
  stmt_top_donated : Key
  stmt_char_details : Key
  stmt_char_donations : Key
  stmt_char_contracts : Key
  stmt_char_donated : Key
  stmt_char_contracted : Key
  stmt_contract_items : Key
  stmt_user_chars : Key
  stmt_create_user : Key
  stmt_get_user : Key
  stmt_get_users : Key
  stmt_get_null_users : Key
  stmt_update_user : Key
  stmt_delete_user : Key
  stmt_add_donation : Key
  stmt_get_name : Key
  stmt_new_name : Key
  stmt_update_name : Key
  stmt_create_character : Key
  stmt_update_character : Key
  stmt_add_contract : Key
  stmt_add_contract_items : Key
  stmt_char_standing_isk : Key
  stmt_create_preferences : Key
  stmt_get_preferences : Key
  stmt_set_donation_preferences : Key
  stmt_set_contract_preferences : Key
  stmt_get_outstanding_contracts : Key
  stmt_accept_contract : Key
  stmt_set_combined_preferences : Key
  stmt_get_stale_contracts : Key
  stmt_get_stale_donations : Key
  stmt_remove_contract : Key
  stmt_remove_contract_items : Key
  stmt_remove_donation : Key

-- the string of a key
unfoldable pub string_of : Key → String
string_of opts = "Opts"
string_of provider = "Provider"
string_of verifier = "Verifier"
string_of db_key = "DB"
string_of cache = "Cache"
string_of adapter = "Adapter"
string_of prices = "Prices"
string_of statements = "Statements"
string_of state_store = "StateStore"
string_of sso_client = "SSOClient"
string_of client = "Client"
string_of http_client = "HTTPClient"
string_of authenticator = "Authenticator"
string_of stmt_top_received = "TestStatement"
string_of stmt_top_donated = "StmtTopDonated"
string_of stmt_char_details = "StmtCharDetails"
string_of stmt_char_donations = "StmtCharDonations"
string_of stmt_char_contracts = "StmtCharContracts"
string_of stmt_char_donated = "StmtCharDonated"
string_of stmt_char_contracted = "StmtCharContracted"
string_of stmt_contract_items = "StmtContractItems"
string_of stmt_user_chars = "StmtUserChars"
string_of stmt_create_user = "StmtCreateUser"
string_of stmt_get_user = "StmtGetUser"
string_of stmt_get_users = "StmtGetUsers"
string_of stmt_get_null_users = "StmtGetNullUsers"
string_of stmt_update_user = "StmtUpdateUser"
string_of stmt_delete_user = "StmtDeleteUser"
string_of stmt_add_donation = "StmtAddDonation"
string_of stmt_get_name = "StmtGetName"
string_of stmt_new_name = "StmtNewName"
string_of stmt_update_name = "StmtUpdateName"
string_of stmt_create_character = "StmtCreateCharacter"
string_of stmt_update_character = "StmtUpdateCharacter"
string_of stmt_add_contract = "StmtAddContract"
string_of stmt_add_contract_items = "StmtAddContractItems"
string_of stmt_char_standing_isk = "StmtCharStandingISK"
string_of stmt_create_preferences = "StmtCreatePreferences"
string_of stmt_get_preferences = "StmtGetPreferences"
string_of stmt_set_donation_preferences = "StmtSetDonationPreferences"
string_of stmt_set_contract_preferences = "StmtSetContractPreferences"
string_of stmt_get_outstanding_contracts = "StmtGetOutstandingContracts"
string_of stmt_accept_contract = "StmtAcceptContract"
string_of stmt_set_combined_preferences = "StmtSetCombinedPreferences"
string_of stmt_get_stale_contracts = "StmtGetStaleContracts"
string_of stmt_get_stale_donations = "StmtGetStaleDonations"
string_of stmt_remove_contract = "StmtRemoveContract"
string_of stmt_remove_contract_items = "StmtRemoveContractItems"
string_of stmt_remove_donation = "StmtRemoveDonation"

abbrev pub all_keys : List Key
all_keys =
    opts ∷ provider ∷ verifier ∷ db_key ∷ cache ∷ adapter ∷ prices ∷ statements ∷ state_store
    ∷ sso_client ∷ client ∷ http_client ∷ authenticator ∷ stmt_top_received ∷ stmt_top_donated
    ∷ stmt_char_details ∷ stmt_char_donations ∷ stmt_char_contracts ∷ stmt_char_donated
    ∷ stmt_char_contracted ∷ stmt_contract_items ∷ stmt_user_chars ∷ stmt_create_user
    ∷ stmt_get_user ∷ stmt_get_users ∷ stmt_get_null_users ∷ stmt_update_user ∷ stmt_delete_user
    ∷ stmt_add_donation ∷ stmt_get_name ∷ stmt_new_name ∷ stmt_update_name ∷ stmt_create_character
    ∷ stmt_update_character ∷ stmt_add_contract ∷ stmt_add_contract_items ∷ stmt_char_standing_isk
    ∷ stmt_create_preferences ∷ stmt_get_preferences ∷ stmt_set_donation_preferences
    ∷ stmt_set_contract_preferences ∷ stmt_get_outstanding_contracts ∷ stmt_accept_contract
    ∷ stmt_set_combined_preferences ∷ stmt_get_stale_contracts ∷ stmt_get_stale_donations
    ∷ stmt_remove_contract ∷ stmt_remove_contract_items ∷ stmt_remove_donation ∷ []

-- what a lookup by a string finds among some keys
pub find_key : String → List Key → Option Key
unfolding string_of
find_key s [] = none
find_key s (k ∷ ks) = if str_eq (string_of k) s then some k else find_key s ks

find_key-string_of : (k : Key) → find_key (string_of k) all_keys ≡ some k
unfolding find_key string_of
find_key-string_of opts = refl
find_key-string_of provider = refl
find_key-string_of verifier = refl
find_key-string_of db_key = refl
find_key-string_of cache = refl
find_key-string_of adapter = refl
find_key-string_of prices = refl
find_key-string_of statements = refl
find_key-string_of state_store = refl
find_key-string_of sso_client = refl
find_key-string_of client = refl
find_key-string_of http_client = refl
find_key-string_of authenticator = refl
find_key-string_of stmt_top_received = refl
find_key-string_of stmt_top_donated = refl
find_key-string_of stmt_char_details = refl
find_key-string_of stmt_char_donations = refl
find_key-string_of stmt_char_contracts = refl
find_key-string_of stmt_char_donated = refl
find_key-string_of stmt_char_contracted = refl
find_key-string_of stmt_contract_items = refl
find_key-string_of stmt_user_chars = refl
find_key-string_of stmt_create_user = refl
find_key-string_of stmt_get_user = refl
find_key-string_of stmt_get_users = refl
find_key-string_of stmt_get_null_users = refl
find_key-string_of stmt_update_user = refl
find_key-string_of stmt_delete_user = refl
find_key-string_of stmt_add_donation = refl
find_key-string_of stmt_get_name = refl
find_key-string_of stmt_new_name = refl
find_key-string_of stmt_update_name = refl
find_key-string_of stmt_create_character = refl
find_key-string_of stmt_update_character = refl
find_key-string_of stmt_add_contract = refl
find_key-string_of stmt_add_contract_items = refl
find_key-string_of stmt_char_standing_isk = refl
find_key-string_of stmt_create_preferences = refl
find_key-string_of stmt_get_preferences = refl
find_key-string_of stmt_set_donation_preferences = refl
find_key-string_of stmt_set_contract_preferences = refl
find_key-string_of stmt_get_outstanding_contracts = refl
find_key-string_of stmt_accept_contract = refl
find_key-string_of stmt_set_combined_preferences = refl
find_key-string_of stmt_get_stale_contracts = refl
find_key-string_of stmt_get_stale_donations = refl
find_key-string_of stmt_remove_contract = refl
find_key-string_of stmt_remove_contract_items = refl
find_key-string_of stmt_remove_donation = refl

-- Keys with one string are one key: no value of a context and no prepared statement hides another.
pub string_of_inj : (k l : Key) → string_of k ≡ string_of l → k ≡ l
string_of_inj k l e =
    let found : some k ≡ some l =
      sym (find_key-string_of k) ∙ ap (λ s. find_key s all_keys) e ∙ find_key-string_of l in
    ground arith
