-- ===== src/Book.antt =====
-- frontend/src/LogBook.tsx. `Drafts` has the draft of a post with its attachments, `Posts` the list of
-- posts, `Context` what the parts of the page share with the pages of posts, `Reading` opening and deleting
-- posts, `Attachments` the uploads, `Publishing` posting, and `Comments` the comments. `Ids` and `Kept` are
-- about the attachments, `Deleting` and `Deleted` about deletions, and `Posted` about posting.
pub mod Drafts
pub mod Posts
pub mod Ids
pub mod Context
pub mod Reading
pub mod Deleting
pub mod Deleted
pub mod Attachments
pub mod Kept
pub mod Publishing
pub mod Posted
pub mod Comments
