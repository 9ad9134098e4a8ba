-- ===== src/Sources.antt =====
-- ingestion/sources: where candles come from.
pub mod Grid
pub mod Live
pub mod Registry
pub mod Replay
pub mod Binance
