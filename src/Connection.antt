-- ===== src/Connection.antt =====
-- src/connection.c: what a connection makes of a request and sends back.
pub mod Route
pub mod Response
pub mod Run
pub mod Turn
pub mod Loop
pub mod Send
pub mod Receive
