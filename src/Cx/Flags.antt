-- ===== src/Cx/Flags.antt =====
-- NewOptions and readAuthConf of isk/cx/options.go: the options from the flags of the command line. The
-- flag package and the reading of files are parameters: a flag that was not given has no value.
use esi_isk.Base.{◌≡◌, String, Bool, false, Option, none, some, if◌then◌else◌, arith}
use esi_isk.Base.Int.{ℤ, pos}
use esi_isk.Base.Word.{low32, int32}
use esi_isk.Cx.{Options}

pub record DbOptions : Type 0 where
  pub host : String
  pub user : String
  pub password : String
  pub name : String
  pub mode : String

-- the flags that were given, by their names
pub record Flags : Type 0 where
  pub ints : String → Option ℤ
  pub strings : String → Option String
  pub bools : String → Option Bool

-- os.Stat (whether a file is there), ioutil.ReadFile, and whether json.Unmarshal reads an oauth config
pub record ConfigFiles : Type 0 where
  pub is_there : String → Bool
  pub read_file : String → Option String
  pub unmarshals : String → Bool

abbrev or_default : {A : Type 0} → Option A → A → A
or_default none a = a
or_default (some b) a = b

-- flag.Int, flag.String and flag.Bool after flag.Parse
int_flag : Flags → String → ℤ → ℤ
int_flag flags name value = or_default (flags.ints name) value

string_flag : Flags → String → String → String
string_flag flags name value = or_default (flags.strings name) value

bool_flag : Flags → String → Bool
bool_flag flags name = or_default (flags.bools name) false

-- readAuthConf: whether a config was read
unfoldable pub read_auth_conf : ConfigFiles → String → Bool
read_auth_conf files path =
    if files.is_there path
    then (elim (files.read_file path) [ none ↦ false | some text ↦ files.unmarshals text ])
    else false

-- NewOptions. The id is kept as the 32 bits of its int32: a negative one, which no character has, is
-- a number from 2 ^ 31 on.
unfoldable pub new_options : ConfigFiles → Flags → Options × DbOptions
unfolding read_auth_conf low32 int32 int_flag string_flag bool_flag
new_options files flags = (
  record {
    production = bool_flag flags "production";
    debug = bool_flag flags "debug";
    https = bool_flag flags "https";
    port = int_flag flags "port" (pos 8080);
    cache_time = int_flag flags "cache-time" (pos 300);
    cache_resp = int_flag flags "cache-resp" (pos 10000);
    max_pref_rows = int_flag flags "max-rows" (pos 100);
    character_id = low32 (int_flag flags "character" (pos 2114454465));
    max_pref_len = int32 (int_flag flags "max-pref" (pos 1500));
    max_pattern_len = int32 (int_flag flags "max-pattern" (pos 500));
    hostname = string_flag flags "hostname" "localhost";
    esi = string_flag flags "esi" "https://esi.evetech.net";
    app_secret = string_flag flags "app-secret" "not-secure";
    has_auth = read_auth_conf files (string_flag flags "auth" "/secret/sso.json");
  },
  record {
    host = string_flag flags "db-host" "postgres";
    user = string_flag flags "db-user" "esi-isk";
    password = string_flag flags "db-passwd" "default";
    name = string_flag flags "db-name" "esi-isk";
    mode = string_flag flags "ssl-mode" "disable";
  },
)

-- Without flags the limits are those of the source, and those on texts fit an int32.
new_options_defaults :
    (files : ConfigFiles) (flags : Flags)
    → ((name : String) → flags.ints name ≡ none)
    → let opts = (new_options files flags).0 in
      (opts.max_pref_rows ≡ pos 100)
      × (opts.max_pref_len ≡ pos 1500)
      × (opts.max_pattern_len ≡ pos 500)
      × (opts.character_id ≡ 2114454465)
unfolding new_options
new_options_defaults files flags no_ints =
    ground
      (arith, no_ints "max-rows", no_ints "max-pref", no_ints "max-pattern", no_ints "character")
