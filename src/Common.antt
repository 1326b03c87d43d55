-- ===== src/Common.antt =====
-- libs/common/src/mcw_common: what both services share.
pub mod Events
pub mod Assets
pub mod Outbox
pub mod Bus
pub mod Money
pub mod Retry
mod Examples
