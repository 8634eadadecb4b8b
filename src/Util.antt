-- ===== src/Util.antt =====
-- The string helpers of dev/lsf/util/string_ext.hpp, over lists of bytes.
pub mod Bytes
pub mod Split
pub mod Hex
pub mod Trim
pub mod Replace
pub mod Utf8
pub mod WordsFilter
