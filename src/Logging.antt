-- ===== src/Logging.antt =====
-- include/xmsigma/logging and src: levels, the hard-RT loggers.
pub mod Level
pub mod Format
pub mod Rows
pub mod CtrlLogger
pub mod Environment
pub mod Paths
pub mod Spdlog
pub mod Vendor
pub mod Specialized
pub mod RtLogger
pub mod Macros
pub mod Samples
pub mod MpscRtLogger
mod Tests
