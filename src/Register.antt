-- ===== src/Register.antt =====
-- scripts/register_connector.py: the configuration of the connector, from its template, and its
-- registration with Kafka Connect.
pub mod Template
pub mod Connect
pub mod Looked
pub mod Registered
