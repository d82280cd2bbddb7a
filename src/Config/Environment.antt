-- ===== src/Config/Environment.antt =====
-- The functions of src/config.rs that read an environment variable; `none` is a variable that is not
-- set. Lower case and the parsing of numbers are the standard library's.
use rapid_gossip_sync_server.Prelude.{
  Option, none, some, ◌||◌, if◌then◌else◌, Result, ok, panic, assertion,
}
use Prim.Native.String.{String}
use text.Mathlib.Text.{◌==◌}

pub data Network : Type 0 where
  bitcoin testnet signet regtest : Network

pub data Level : Type 0 where
  gossip trace debug info warn error : Level

abbrev or_default : String → Option String → String
or_default default none = default
or_default default (some value) = value

module _ (to_lowercase : String → String) where
  unfoldable pub network : Option String → Result Network
  network variable =
      let name = to_lowercase (or_default "bitcoin" variable) in
      if name == "mainnet" || name == "bitcoin"
      then ok bitcoin
      else if name == "testnet"
      then ok testnet
      else if name == "signet"
      then ok signet
      else if name == "regtest"
      then ok regtest
      else panic assertion

  unfoldable pub log_level : Option String → Result Level
  log_level variable =
      let level = to_lowercase (or_default "info" variable) in
      if level == "gossip"
      then ok gossip
      else if level == "trace"
      then ok trace
      else if level == "debug"
      then ok debug
      else if level == "info"
      then ok info
      else if level == "warn"
      then ok warn
      else if level == "error"
      then ok error
      else panic assertion

  abbrev pub cache_path : Option String → String
  cache_path variable = to_lowercase (or_default "./res" variable)
