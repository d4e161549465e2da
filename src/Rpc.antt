-- ===== src/Rpc.antt =====
-- Package rpc (mockserver/internal/rpc/server_routes.go): the HTTP surface.
pub mod Page
pub mod OrderBooks
pub mod Http
pub mod Replies
pub mod Routes
pub mod Mux
