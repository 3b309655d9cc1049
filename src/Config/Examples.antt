-- ===== src/Config/Examples.antt =====
-- Configurations that the checks accept.
use vk_turn_proxy_go.Base.Int.{pos}
use vk_turn_proxy_go.Config.{
  ServerConfig, ClientConfig, default_server_config, default_client_config,
}

abbrev server : ServerConfig
server = record default_server_config { upstream_addr = "127.0.0.1:51820" }

abbrev client : ClientConfig
client = record default_client_config {
  provider = "vk";
  link = "https://vk.com/call/join/x";
  peer_addr = "203.0.113.5:56000";
  connections = pos 4;
}
