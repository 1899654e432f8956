-- ===== src/Tests.antt =====
-- Runs of the definitions, and the theorems at concrete inputs.
pub mod Text
pub mod Parse
pub mod Pieces
pub mod Http
pub mod Process
pub mod Uwsgi
pub mod Memory
pub mod Server
pub mod Connection
pub mod Conf
pub mod System
