-- ===== src/Ports/Tests.antt =====
-- A web server's port mappings.
use thecloud.Prelude.{List, [], ◌∷◌, map, Text, text, ◌≡◌, refl}
use thecloud.Action.{ok}
use thecloud.Ports.Strings.{split}
use thecloud.Ports.Dynamic.{parse_and_validate_ports-to_dynamic_ports}
use thecloud.Ports.{
  parse_and_validate_ports, validate_all, validate_parts, parse_port, to_dynamic_ports,
  dynamic_port,
}

abbrev web : Text
web = text "8080:80,8443:443"

abbrev web_mappings : List Text
web_mappings = text "8080:80" ∷ text "8443:443" ∷ []

parse_and_validate_ports-to_dynamic_ports_example :
    parse_and_validate_ports (to_dynamic_ports web) ≡ ok (map dynamic_port web_mappings)
unfolding parse_and_validate_ports split validate_all validate_parts parse_port
parse_and_validate_ports-to_dynamic_ports_example =
    parse_and_validate_ports-to_dynamic_ports web web_mappings refl
