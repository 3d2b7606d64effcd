-- ===== src/Lib.antt =====
-- The routing core of the auto model router (auto_router/): which route of the catalog serves a
-- turn of a conversation, at what expected cost, and where a turn goes when its route fails.
--
-- The parts, and the files that model them:
--   Catalog       auto_router/catalog.py: models, prices, capability scores, the catalog's filter
--   Economics     auto_router/economics.py: warm prefixes, the cost of a call, the success curve
--   Quota         auto_router/quota.py: when a flat-rate plan is open, and its price at the margin
--   Verify        auto_router/verify.py: which answers a judge checks, and the verdict
--   Policies      auto_router/policies.py: State (requests, conversations, the price of a turn),
--                 Candidates, Escalation (policies A to E), Expected (policy F)
--   Truncation    auto_router/truncation.py: the labels of length stops
--   OutcomeMemory auto_router/outcome_memory.py: observed outcomes per route and request key
--   CacheIndex    auto_router/cache_index.py: hashes of conversation prefixes and what is warm
--   Retries       auto_router/router.py and auto_router/verify.py: the route that replaces a choice
--   Router        auto_router/router.py: Messages (what it reads of a conversation), Requests (the
--                 request of a turn), Records (the decision record, with auto_router/decision.py), State
--                 (conversations, estimator, outcomes, ledger; commit and observe), Routing (route),
--                 Checking (check), Attempts (escalate, escalate_after_verdict), Interface (the policies
--                 A to F as objects, and the laws, which all but A keep); the rest of the folder holds
--                 proofs
--   Gateway       auto_router/server.py: what is read of requests and answers; Turn is the loop of
--                 chat_completions over its attempts, and the rest of the folder holds proofs
--   Switch        auto_router/switch.py: the mode that answers a prompt, the next session's arguments
--   Usage         auto_router/pricing.py: token counts of a finished call, and its cost
--   Metrics       auto_router/metrics.py: the counters of served turns
--   Ledger        auto_router/ledger.py: the lines written and the counters of failures
--   Translate     the dialects of the providers: Stream is auto_router/stream_translate.py (Protocol says
--                 what a client of the stream expects), Requests, Answers, Tools, Events and Ids
--                 are auto_router/translate.py, Responses is auto_router/responses_api.py
--   Prelude       lists, tests, dictionaries, JSON values, texts and floats that the parts share
--   Examples      concrete routes on which the theorems are applied
--
-- A turn is a `TurnRequest`; a policy asks `candidates` for the usable routes (Catalog.eligible,
-- then the plans that Quota.decide leaves open), prices each one (Economics.turn_cost, the
-- success curve, Verify.applies for the judge's share) and names one.
-- Router._avoid_repeated_truncation may replace it on the evidence of the OutcomeMemory, and
-- on_failure, escalation_choice, Router.escalate and _next_available name the route of the next
-- attempt. Gateway.Turn routes these calls: each attempt posts to the upstream, commits and
-- observes what came back, and has a finished answer checked, after which escalate_after_verdict
-- may name a second route. A policy object is the record `Policy` of Router/State with the laws
-- `IsLawful` of Router/Interface; a method that changes an object
-- returns the changed record, and one that raises returns a Result. Around the routing, Translate
-- turns a request of the Anthropic dialect into chat completions and the upstream's answer back:
-- whole, replayed, or chunk by chunk. A generator is the list of the events that it yields, with
-- the state after them, or none where it raises.
--
-- Numbers: token counts are native naturals, and subtraction stops at 0 where the source has
-- max(0, ...) or the difference cannot be negative. A float is any type with the operations of
-- Prelude/Float; the theorems that need laws of them (order, monotonicity, signs) name these as
-- `IsOrdered` and `IsMonotone`, which Prelude/Fixed shows to hold for fixed-point numbers. NaN is
-- not a value. SHA-256 and the canonical JSON of a message are parameters of CacheIndex, and what
-- a policy's `evaluate` returned is an argument in Retries. The upstream, the judge, the
-- classifier and the context of an attempt (catalog, quota) are parameters of Router and Gateway.
-- A request, an answer or a chunk is the parsed JSON with the fields that the code reads;
-- json.loads, json.dumps and random ids are parameters of Translate. Loops are structural
-- recursion on lists or on a count (the attempts of a turn are counted down from MAX_ATTEMPTS),
-- so no fuel is needed. Clocks are arguments; each method runs whole, as under its lock.
-- Dictionaries are association lists in the order of insertion.
--
-- Not modelled: reading configuration, benchmark files and quota documents; the classifiers; the
-- server's streams, its Anthropic endpoint and HTTP itself; route_job and its tiers; the process
-- launchers; the SSE text of an event; texts for display, of which only the reason of a choice is
-- kept, as a constructor with its numbers.
pub mod Prelude
pub mod Catalog
pub mod Economics
pub mod Quota
pub mod Verify
pub mod Policies
pub mod Truncation
pub mod OutcomeMemory
pub mod CacheIndex
pub mod Retries
mod Examples
pub mod Switch
pub mod Usage
pub mod Metrics
pub mod Ledger
pub mod Router
pub mod Gateway
pub mod Translate
