-- ===== src/Journals.antt =====
-- The journals of the structured response and of the endpoint choice Tasks.
-- ln_church_agent/structured_response_journal.py, ln_church_agent/endpoint_choice_reason_journal.py
pub mod Stored
pub mod Structured
pub mod StructuredCalls
pub mod StructuredLaws
pub mod Endpoint
pub mod EndpointLaws
mod Tests
