-- ===== src/Remember.antt =====
-- src/ohmyboring/remember: what becomes of a note that resembles one that the vault already has.
pub mod Note
pub mod Tokens
pub mod Quality
pub mod Tags
pub mod Match
pub mod Dedup
pub mod Graph
pub mod Tables
pub mod Claims
pub mod Anchors
pub mod Action
pub mod Projection
pub mod Request
pub mod Store
pub mod WikiId
pub mod NoteIndex
pub mod NoteIndexExamples
pub mod Render
pub mod ReadBack
pub mod Writer
pub mod Run
pub mod WriteExamples
pub mod RunExamples
mod Examples
mod TagExamples
