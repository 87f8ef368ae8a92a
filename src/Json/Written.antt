-- ===== src/Json/Written.antt =====
-- What `json.Marshal` writes is read back by `json.Unmarshal`'s scan.
pub mod Strings
pub mod Objects
pub mod Texts
pub mod Maps
pub mod Counts
