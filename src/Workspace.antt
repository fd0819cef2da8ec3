-- ===== src/Workspace.antt =====
-- The workspaces of db_store.py: the tables of projects, chats and messages, and the operations on
-- them within a request's scope.
pub mod Table
pub mod Row
pub mod Payload
pub mod Scope
pub mod Project
pub mod Chat
pub mod Message
pub mod Chain
pub mod Document
pub mod Upload
pub mod Visible
pub mod Step
pub mod Request
pub mod Conversation
pub mod Settings
pub mod Sources
mod Examples
