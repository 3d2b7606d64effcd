-- ===== src/Router.antt =====
-- auto_router/router.py: the live router. Messages is what it reads of a conversation, Requests the request
-- that it makes of it, Records what it writes down, State what it holds, and Routing, Checking and
-- Attempts are its methods. Interface says what it relies on of a policy.
pub mod Messages
pub mod Records
pub mod Requests
pub mod State
pub mod Routing
pub mod Checking
pub mod Attempts
pub mod Interface
pub mod Served
pub mod Seconds
pub mod Retried
pub mod Unserved
pub mod Steps
pub mod Lines
pub mod Verdicts
