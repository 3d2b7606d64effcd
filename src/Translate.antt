-- ===== src/Translate.antt =====
-- The translations between the providers' dialects: auto_router/translate.py,
-- auto_router/stream_translate.py and auto_router/responses_api.py.
pub mod Events
pub mod Ids
pub mod Stream
pub mod Protocol
pub mod Answers
pub mod Requests
pub mod Tools
pub mod Responses
