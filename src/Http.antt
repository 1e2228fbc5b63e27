-- ===== src/Http.antt =====
-- src/http/server.ts: who may use the interface, and what the requests and answers are read and
-- made of. The routes themselves are not modelled.
pub mod Sessions
pub mod Answers
