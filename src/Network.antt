-- ===== src/Network.antt =====
-- `NetworkMonitorService` and `FlowStats` (backend/app/services/network_monitor.py) and
-- `NetworkAnomalyEngine` (backend/app/services/network_anomaly.py). What scapy captures is a
-- parameter: a packet is the fields that the code reads. Times are in microseconds.
pub mod Flow
pub mod Counts
pub mod Streams
pub mod Table
pub mod Bounded
pub mod Anomaly
pub mod Risk
mod Tests
