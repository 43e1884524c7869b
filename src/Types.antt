-- ===== src/Types.antt =====
-- types.go.
pub mod Ports
pub mod Scalars
pub mod TrafficSize
pub mod FlexibleId
pub mod StringFloat
pub mod Reset
pub mod BerlinTime
pub mod Forms
pub mod Resources
