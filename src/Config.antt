-- ===== src/Config.antt =====
-- internal/config/config.go and cmd/server/main.go: the configuration of a server. `decode_file` is
-- toml.DecodeFile: it fills a configuration from the file with the given path.
pub mod Precedence
use jario.Base.{Bool, false, not, ◌&&◌, List, [], ◌∷◌, ◌++◌, if◌then◌else◌}
use jario.Text.{Text, codes, text_eq}
use jario.Outcome.{Outcome, ok, err, panic, other, message, ◌>>=◌}

pub record Config : Type 0 where
  pub data_dir : Text
  pub listen : Text
  pub node_id : Text
  pub raft_addr : Text
  pub tls_cert : Text
  pub tls_key : Text
  pub access_key : Text
  pub secret_key : Text
  pub bootstrap : Bool
  pub join : Text
  pub region : Text
  pub upload_max_age : Text

abbrev pub default : Config
default = record {
  data_dir = codes "./data";
  listen = codes ":9000";
  node_id = codes "node1";
  raft_addr = codes "localhost:9090";
  tls_cert = [];
  tls_key = [];
  access_key = codes "minioadmin";
  secret_key = codes "minioadmin";
  bootstrap = false;
  join = [];
  region = codes "us-east-1";
  upload_max_age = codes "24h";
}

-- The flags that main registers. `config_flag` is the path of the file and is not in its switch.
pub data Flag : Type 0 where
  config_flag data_dir_flag listen_flag node_id_flag raft_addr_flag tls_cert_flag : Flag
  tls_key_flag access_key_flag secret_key_flag bootstrap_flag join_flag region_flag : Flag
  upload_max_age_flag : Flag

-- The function that main gives to flag.Visit; `given` has the values of the flags.
abbrev pub set_flag : Config → Flag → Config → Config
set_flag given config_flag cfg = cfg
set_flag given data_dir_flag cfg = record cfg { data_dir = given.data_dir }
set_flag given listen_flag cfg = record cfg { listen = given.listen }
set_flag given node_id_flag cfg = record cfg { node_id = given.node_id }
set_flag given raft_addr_flag cfg = record cfg { raft_addr = given.raft_addr }
set_flag given tls_cert_flag cfg = record cfg { tls_cert = given.tls_cert }
set_flag given tls_key_flag cfg = record cfg { tls_key = given.tls_key }
set_flag given access_key_flag cfg = record cfg { access_key = given.access_key }
set_flag given secret_key_flag cfg = record cfg { secret_key = given.secret_key }
set_flag given bootstrap_flag cfg = record cfg { bootstrap = given.bootstrap }
set_flag given join_flag cfg = record cfg { join = given.join }
set_flag given region_flag cfg = record cfg { region = given.region }
set_flag given upload_max_age_flag cfg = record cfg { upload_max_age = given.upload_max_age }

-- flag.Visit calls it for the flags on the command line only.
unfoldable pub visit : Config → List Flag → Config → Config
visit given [] cfg = cfg
visit given (f ∷ fs) cfg = visit given fs (set_flag given f cfg)

module _ (decode_file : Text → Config → Outcome Config) where
  unfoldable pub load : Text → Outcome Config
  load path = if text_eq path [] then ok default else elim (decode_file path default) [
    | ok cfg ↦ ok cfg
    | err e ↦ err (other (codes "load config " ++ (path ++ (codes ": " ++ message e))))
    | panic ↦ panic
  ]

  -- main up to the guard on --bootstrap and --join; an error ends the process.
  unfoldable pub configure : (path : Text) (given : Config) (visited : List Flag) → Outcome Config
  configure path given visited = do
    file ← load path
    let cfg = visit given visited file
    if cfg.bootstrap && not (text_eq cfg.join [])
        then err (other (codes "--bootstrap and --join are mutually exclusive"))
        else ok cfg
