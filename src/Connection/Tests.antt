-- ===== src/Connection/Tests.antt =====
-- Concrete configurations, presets and connection strings (components/database/providers/postgresql/
-- config).
use demiplane.Prelude.Numerals.{stoi}
use demiplane.Prelude.{◌<◌, ◌≡◌, ◌↔◌, refl, none, some, [], ◌∷◌, codes, arith}
use demiplane.Connection.Credentials.{
  ok, thrown, default_credentials, no_dbname, stoi_failed, invalid_port, validate_credentials,
  escape_connection_value, check_port,
}
use demiplane.Connection.Config.{
  ConnectionConfig, default_config, validate_config, to_connection_string,
}
use demiplane.Connection.Builder.{local_dev, production, port_number}
use demiplane.Connection.Valid.{
  IsConsistent, validate_config-IsConsistent, validate_credentials-port_number,
}

abbrev shop : ConnectionConfig
shop = record default_config {
  credentials = record default_credentials {
    dbname = codes "shop";
    user = codes "app";
    password = codes "it's = \\ here";
  };
  extra_options = (codes "keepalives", codes "1") ∷ [];
}

-- Two of the three presets throw, whatever is done with the result.
local_dev_throws : local_dev ≡ thrown no_dbname
unfolding local_dev
local_dev_throws = refl

production_throws : production ≡ thrown no_dbname
unfolding production
production_throws = refl

port_with_rest : check_port (stoi (codes "5432x")) ≡ none
unfolding check_port stoi codes
port_with_rest = refl

port_without_number : check_port (stoi (codes "five")) ≡ some stoi_failed
unfolding check_port stoi codes
port_without_number = refl

port_too_long : check_port (stoi (codes "99999999999")) ≡ some invalid_port
unfolding check_port stoi codes
port_too_long = refl

quoted_value : escape_connection_value (codes "it's") ≡ codes "'it\\'s'"
unfolding escape_connection_value codes
quoted_value = refl

validate_config-IsConsistent_example : (validate_config shop ≡ none) ↔ IsConsistent shop
validate_config-IsConsistent_example = validate_config-IsConsistent shop

validate_credentials-port_number_example :
    (validate_credentials (port_number 6543 shop).credentials ≡ none) ↔ (0 < 6543)
unfolding codes
validate_credentials-port_number_example =
    validate_credentials-port_number shop 6543 refl refl (omega arith)

shop_text :
    to_connection_string shop
    ≡ ok (
        codes
          "host=localhost port=5432 dbname=shop user=app password='it\\'s = \\\\ here' sslmode=prefer connect_timeout=30 keepalives=1")
unfolding to_connection_string escape_connection_value codes
shop_text = refl
