-- ===== src/Config/Defaults.antt =====
-- The `Default` implementations and the serde defaults of src/config.rs: the base layer beneath the
-- file and the environment.
use mayfly_server.Prelude.{lit, [], none, true}
use mayfly_server.Config.{
  Config, TlsConfig, ServerConfig, DatabaseConfig, LoggingConfig, pretty, GithubConfig, CaConfig,
  BundleConfig, production,
}

abbrev pub default_github : GithubConfig
default_github = record {
  client_id = [];
  client_secret = none;
  scopes = lit "read:user user:email";
  device_base_url = lit "https://github.com";
  api_base_url = lit "https://api.github.com";
}

abbrev pub default_ca : CaConfig
default_ca = record {
  storage_directory = lit "./ca";
  auto_load = true;
  passphrase_env = lit "CA_STORAGE_PASSPHRASE";
}

abbrev pub default_bundle : BundleConfig
default_bundle = record {
  sync_interval_seconds = 300;
  jitter_percent = 10;
  ttl_seconds = 3600;
  signing_key_env = lit "BUNDLE_SIGNING_KEY";
}

abbrev pub default_tls : TlsConfig
default_tls = record { enabled = true; cert_path = none; key_path = none }

abbrev pub default_server : ServerConfig
default_server = record { host = lit "127.0.0.1"; port = 8443; tls = default_tls }

abbrev pub default_database : DatabaseConfig
default_database = record { url = lit "sqlite://mayfly.db"; max_connections = 5 }

abbrev pub default_logging : LoggingConfig
default_logging = record { format = pretty; level = lit "info" }

abbrev pub default_config : Config
default_config = record {
  environment = production;
  server = default_server;
  database = default_database;
  logging = default_logging;
  github = default_github;
  keycloak = none;
  default_provider = none;
  ca = default_ca;
  bundle = default_bundle;
  access = record {
    allowed_users = [];
    allowed_orgs = [];
    allowed_teams = [];
    allowed_groups = [];
    allowed_roles = [];
    allowed_attributes = [];
  };
}
