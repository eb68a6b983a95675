-- ===== src/Post.antt =====
-- daemon/SerialDaemon.cpp, `PostChangeEvents` and `PostCGEvent`: the changes of the stylus and of its
-- buttons become events of the system. `post_change_events` is given the position on the
-- screen, which Position computes from the point of the tablet.
pub mod Cg
pub mod Change
pub mod Levels
pub mod Turns
pub mod Alternate
pub mod Run
pub mod Position
pub mod Near
pub mod Edges
pub mod EdgeTests
pub mod Tests
