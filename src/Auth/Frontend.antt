-- ===== src/Auth/Frontend.antt =====
-- Authentication/Frontend.c: what asks the user, sends the request and judges the answer.
pub mod Input
pub mod Terminal
pub mod Exchange
pub mod Main
pub mod Tests
