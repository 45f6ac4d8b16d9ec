-- ===== src/Api.antt =====
-- internal/infra/httpapi: the responses and the three handlers of notifications.
pub mod Code
pub mod Response
pub mod Notify
pub mod Reset
pub mod List
pub mod Middleware
pub mod Server
pub mod Spa
pub mod DevProxy
