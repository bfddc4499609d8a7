-- ===== src/Service.antt =====
-- The service around the handlers, go-ooo/service: its loop, its HTTP interface, and the statistics
-- of the requests that were served.
pub mod Analytics
pub mod Server
pub mod Loop
pub mod Serve
