-- ===== src/Dejavu.antt =====
-- plugins/dejavu/logic.go: who of the current lobby the selected player has met before.
pub mod Roster
pub mod History
pub mod Recall
pub mod Requests
