-- ===== src/Config/Precedence.antt =====
-- cmd/server/main.go: defaults, then the file, then the flags on the command line.
use jario.Base.{
  ℕ, ◌≡◌, refl, Bool, true, false, not, ◌&&◌, List, [], ◌∷◌, arith, ◌==◌, if◌then◌else◌,
}
use jario.Text.{Text, text_eq}
use jario.Outcome.{Outcome, ok}
use jario.Config.{
  Config, Flag, set_flag, visit, load, configure, config_flag, data_dir_flag, listen_flag,
  node_id_flag, raft_addr_flag, tls_cert_flag, tls_key_flag, access_key_flag, secret_key_flag,
  bootstrap_flag, join_flag, region_flag, upload_max_age_flag,
}

pub data Value : Type 0 where
  nothing : Value
  text : Text → Value
  switch : Bool → Value

-- The setting that a flag stands for.
abbrev pub setting : Flag → Config → Value
setting config_flag cfg = nothing
setting data_dir_flag cfg = text cfg.data_dir
setting listen_flag cfg = text cfg.listen
setting node_id_flag cfg = text cfg.node_id
setting raft_addr_flag cfg = text cfg.raft_addr
setting tls_cert_flag cfg = text cfg.tls_cert
setting tls_key_flag cfg = text cfg.tls_key
setting access_key_flag cfg = text cfg.access_key
setting secret_key_flag cfg = text cfg.secret_key
setting bootstrap_flag cfg = switch cfg.bootstrap
setting join_flag cfg = text cfg.join
setting region_flag cfg = text cfg.region
setting upload_max_age_flag cfg = text cfg.upload_max_age

abbrev ordinal : Flag → ℕ
ordinal config_flag = 0
ordinal data_dir_flag = 1
ordinal listen_flag = 2
ordinal node_id_flag = 3
ordinal raft_addr_flag = 4
ordinal tls_cert_flag = 5
ordinal tls_key_flag = 6
ordinal access_key_flag = 7
ordinal secret_key_flag = 8
ordinal bootstrap_flag = 9
ordinal join_flag = 10
ordinal region_flag = 11
ordinal upload_max_age_flag = 12

-- Is the flag on the command line?
abbrev pub on_line : Flag → List Flag → Bool
on_line f [] = false
on_line f (g ∷ fs) = if ordinal g == ordinal f then true else on_line f fs

setting-set_flag :
    (f g : Flag) (given cfg : Config)
    → setting f (set_flag given g cfg)
      ≡ (if ordinal g == ordinal f then setting f given else setting f cfg)
setting-set_flag config_flag g given cfg = ground arith
setting-set_flag data_dir_flag g given cfg = ground arith
setting-set_flag listen_flag g given cfg = ground arith
setting-set_flag node_id_flag g given cfg = ground arith
setting-set_flag raft_addr_flag g given cfg = ground arith
setting-set_flag tls_cert_flag g given cfg = ground arith
setting-set_flag tls_key_flag g given cfg = ground arith
setting-set_flag access_key_flag g given cfg = ground arith
setting-set_flag secret_key_flag g given cfg = ground arith
setting-set_flag bootstrap_flag g given cfg = ground arith
setting-set_flag join_flag g given cfg = ground arith
setting-set_flag region_flag g given cfg = ground arith
setting-set_flag upload_max_age_flag g given cfg = ground arith

setting-visit :
    (f : Flag) (given : Config) (visited : List Flag) (cfg : Config)
    → setting f (visit given visited cfg)
      ≡ (if on_line f visited then setting f given else setting f cfg)
unfolding visit
setting-visit f given [] cfg = refl
setting-visit f given (g ∷ visited) cfg =
    ground
      (arith, setting-visit f given visited (set_flag given g cfg), setting-set_flag f g given cfg)

module _ (decode_file : Text → Config → Outcome Config) where
  -- A server that starts has, for each flag, the value of the flag if it is on the command line,
  -- and the value of the configuration that `load` returns otherwise; it is not told both to
  -- bootstrap and to join. `load` succeeds.
  pub configure_lem :
      (path : Text) (given file cfg : Config) (visited : List Flag)
      → load decode_file path ≡ ok file
      → configure decode_file path given visited ≡ ok cfg
      → ((f : Flag)
          → setting f cfg ≡ (if on_line f visited then setting f given else setting f file))
        × ((cfg.bootstrap && not (text_eq cfg.join [])) ≡ false)
  unfolding configure
  configure_lem path given file cfg visited loaded done = (
    λ f. ground (arith, loaded, done, setting-visit f given visited file),
    ground (arith, loaded, done),
  )
