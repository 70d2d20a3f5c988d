-- ===== src/Config.antt =====
-- The settings of src/xrd/config.py that the modelled code reads. A whole number may be negative;
-- a span of time is a number of ticks and is not. Paths and names are byte strings.
use py_xroot_dclient.Base.Int.{ℤ}
use py_xroot_dclient.Base.{Bytes, ℕ, Option, List, Bool}

pub record Config : Type 0 where
  pub username : Bytes
  pub connect_retries : ℤ
  pub retry_backoff : ℕ
  pub redirect_limit : ℤ
  pub wait_cap : ℕ
  pub pool_size : ℤ
  pub pool_idle_ttl : ℕ
  pub token : Option Bytes
  pub token_file : Option Bytes
  pub keytab : Option Bytes
  pub proxy : Option Bytes
  pub ca_path : Option Bytes
  pub ca_file : Option Bytes
  pub auth_order : List Bytes
  pub verify_tls : Bool
  pub require_tls : Bool
  pub chunk_size : ℕ
  pub data_streams : ℤ
  pub max_read_size : ℤ
  pub recover_handles : Bool
