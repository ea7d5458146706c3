-- ===== src/Utility.antt =====
-- src/utility.cpp and src/utility.hpp.
pub mod Percent
pub mod Base64
pub mod Text
