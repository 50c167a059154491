-- ===== src/Http.antt =====
-- internal/handler and internal/server/router.go: the HTTP interface. A handler takes the store and
-- what it uses of the request: the user that the context holds, the path's identifier, the query and
-- the decoded body, `none` where the decoding fails. It gives the store and its answer.
pub mod Answers
pub mod Accounts
pub mod Sessions
pub mod Machines
pub mod Artifacts
pub mod Logins
pub mod Fixed
pub mod Router
pub mod Channel
