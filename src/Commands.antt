-- ===== src/Commands.antt =====
-- cc2camera/commands.py: the catalog of commands of both stages and the builders of requests.
pub mod Numbers
pub mod Configuration
pub mod Uploads
pub mod MemberNames
pub mod Catalog
pub mod Requests
pub mod BootRequests
