-- ===== src/Simulation/Approval.antt =====
-- simulation/approval.py: `StatefulPaperApprover`. A method returns the approver as it is after the
-- call. `Gate` and `Settlement` hold the definitions, the other children the proofs.
pub mod Gate
pub mod Settlement
pub mod Decisions
pub mod Exclusive
pub mod Calls
pub mod Budget
mod Tests
