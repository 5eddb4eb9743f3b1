-- ===== src/Domain.antt =====
-- domain/contracts.py: the values that the simulation passes around, with the checks of their
-- `__post_init__` methods. `Numbers` holds Python's two kinds of fractional number.
pub mod Numbers
pub mod Contracts
pub mod Plans
pub mod Whole
