-- ===== src/Config.antt =====
-- The class of src/config.hpp. Durations are in whole seconds; an `unordered_map` is the list of its
-- entries.
pub mod Init
pub mod Keys
pub mod Settings
pub mod Server
pub mod Messages
pub mod Accepted
pub mod Errors
use waspp.Base.{ℕ, Bool, false, List, [], Bytes}

abbrev pub Section : Type 0
Section = List (Bytes × Bytes)

pub record Config : Type 0 where
  pub log_level : Bytes
  pub log_rotation : Bytes
  pub access_granted : List Bytes
  pub access_denied : List Bytes
  pub encrypt_key : Bytes
  pub sess_cookie : Bytes
  pub expiry_sec : ℕ
  pub update_sec : ℕ
  pub validate_ip : Bool
  pub validate_ua : Bool
  pub address : Bytes
  pub port : Bytes
  pub doc_root : Bytes
  pub num_threads : ℕ
  pub compress : Bool
  pub ssl : Bool
  pub ssl_crt : Bytes
  pub ssl_key : Bytes
  pub cfg : List (Bytes × Section)
  pub locale : Bytes
  pub err : List (ℕ × Bytes)

-- The constructor.
abbrev pub empty_config : Config
empty_config = record {
  log_level = [];
  log_rotation = [];
  access_granted = [];
  access_denied = [];
  encrypt_key = [];
  sess_cookie = [];
  expiry_sec = 0;
  update_sec = 0;
  validate_ip = false;
  validate_ua = false;
  address = [];
  port = [];
  doc_root = [];
  num_threads = 0;
  compress = false;
  ssl = false;
  ssl_crt = [];
  ssl_key = [];
  cfg = [];
  locale = [];
  err = [];
}
