-- ===== src/Uwsgi.antt =====
-- src/module_uwsgi.c: the module's configuration and its handler, what it sends to the backend, and how
-- it takes the answer.
pub mod Packet
pub mod Module
pub mod Exchange
pub mod Abort
