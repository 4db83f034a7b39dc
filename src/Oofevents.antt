-- ===== src/Oofevents.antt =====
-- internal/oofevents: the events of the program and the bus that carries them.
pub mod Types
pub mod New
pub mod Bus
