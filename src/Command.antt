-- ===== src/Command.antt =====
-- The programs of the repository: cmd/gateway, and those of hack/. The packages `os`, `flag` and `log`
-- are what a program is started with and how it ends.
pub mod Client
pub mod Gateway
pub mod Toy
mod Examples
