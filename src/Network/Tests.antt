-- ===== src/Network/Tests.antt =====
-- Names, ports and networks of concrete hosts.
use switchdesk_engine.Prelude.{codes, ◌≡◌, refl}
use switchdesk_engine.Network.{mdns_instance_name, sanitized, or_default, is_alnum}

name_is_cut : mdns_instance_name (codes "my host!x") ≡ codes "my-host"
unfolding mdns_instance_name sanitized or_default is_alnum
name_is_cut = refl
