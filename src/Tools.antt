-- ===== src/Tools.antt =====
-- Scripts of src/tools that change the stores by hand.
pub mod Reset
pub mod DemoUsers
pub mod Capture
