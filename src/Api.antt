-- ===== src/Api.antt =====
-- pkg/apiserver: the handlers of the two versions of the API. The log lines are left out.
pub mod Texts
pub mod Names
pub mod Queries
pub mod Responses
pub mod Reads
pub mod Patches
pub mod Conditions
pub mod Answers
pub mod Access
pub mod Limits
pub mod Routes
pub mod Handlers
