-- ===== src/Policies.antt =====
-- auto_router/policies.py, in the order of the file: the shared state, the candidates, the policies
-- A to E, and the expected-cost policy F; then what they guarantee.
pub mod State
pub mod Candidates
pub mod Escalation
pub mod Expected
pub mod Safety
pub mod Chosen
pub mod Optimal
pub mod Chain
