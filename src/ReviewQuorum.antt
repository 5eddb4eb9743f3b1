-- ===== src/ReviewQuorum.antt =====
-- experiments/review_quorum.py: the envelope that binds signed reviews to one request and one dossier.
-- `Envelope` has the records, the status and the JSON form, `Build` and, with `Reading`, `Load` the two
-- ways to make an envelope, `Parsing` the checks of single fields; the other children hold the proofs.
pub mod Parsing
pub mod Envelope
pub mod Build
pub mod Reading
pub mod Load
pub mod Distinct
pub mod Accepted
pub mod Status
pub mod Sorting
pub mod Built
pub mod Reread
pub mod RoundTrip
mod Tests
