-- ===== src/Checks/Browsers.antt =====
-- tools/nobytes_cca/checks/windows/browsers.py: ism-1485 (`Ads`), ism-1486 (`Java`) and ism-1585
-- (`Locked`), on what `Inventory` reads. Parsing JSON is a parameter, `json_loads`.
pub mod Inventory
pub mod Ads
pub mod Java
pub mod Locked
pub mod Guards
pub mod Forced
pub mod Evidence
pub mod Mandatory
pub mod Npapi
