-- ===== src/Broker.antt =====
-- src/broker/: the embedded MQTT broker. `Hook` is what the controller does at its events.
pub mod Hook
pub mod Server
