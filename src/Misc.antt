-- ===== src/Misc.antt =====
-- src/misc.c: the helpers that the programs share.
pub mod Text
pub mod TextLaws
pub mod Tests
pub mod Path
pub mod Components
pub mod PathLaws
pub mod PathSteps
