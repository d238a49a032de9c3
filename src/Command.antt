-- ===== src/Command.antt =====
-- command.c, command.h: the command interpreter. A vector that is only filled by `vector_set` is the
-- list of its slots (Vector/Dense.antt); the copy of a node's command vector, whose slots the filters
-- clear, is the list of its slots up to `max`, with `none` for NULL.
pub mod Element
pub mod Strvec
pub mod Descvec
pub mod Filter
pub mod Execute
pub mod Complete
pub mod Describe
