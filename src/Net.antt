-- ===== src/Net.antt =====
-- Addresses inside a subnet: allocateIP and findAvailableIP of internal/core/services/instance.go,
-- calculateGatewayIP of subnet.go.
pub mod Address
pub mod Allocate
pub mod Search
mod Tests
