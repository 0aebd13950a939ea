-- ===== src/Server/Api.antt =====
-- The handlers of misc/server: services_opentunnel.go, services_closetunnel.go,
-- services_describetunnel.go, services_listtunnels.go, services_debuglist.go, services_debugsend.go, and
-- services_connect.go up to the WebSocket.
pub mod Open
pub mod Connect
pub mod Debug
