-- ===== src/Histstore.antt =====
-- internal/histstore: the match history, recorded from the events of the bus.
pub mod Store
pub mod Players
pub mod Recorder
