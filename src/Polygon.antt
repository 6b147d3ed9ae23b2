-- ===== src/Polygon.antt =====
-- polygon-service/src: the import of problems that were prepared on Polygon.
mod Tests
pub mod Xml
pub mod TestCases
pub mod Problems
pub mod Disk
pub mod Service
pub mod Statement
pub mod Archive
pub mod Import
pub mod Controller
