-- ===== src/AiService.antt =====
-- apps/ai-service: what runs beside the DeepStream pipeline.
pub mod Embedding
pub mod Gallery
pub mod Associator
pub mod Nms
pub mod Boxes
pub mod Spatial
pub mod GalleryManager
pub mod Probe
pub mod Streams
