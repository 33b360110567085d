-- ===== src/MessageRouter.antt =====
-- The router's message router: services/router/internal/router/message_router.go.
pub mod Correlation
pub mod Pending
pub mod Submission
pub mod Goroutine
pub mod Answers
pub mod Direct
pub mod Retries
mod Examples
