-- ===== src/Image.antt =====
-- The firmware image: cc2camera/image.py.
pub mod Order
pub mod Numbers
pub mod Jffs2
pub mod Encode
pub mod Serial
pub mod Live
pub mod Info
pub mod Config
pub mod Hardware
pub mod Xz
pub mod SystemPatch
pub mod Analysis
pub mod Recovery
