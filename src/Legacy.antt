-- ===== src/Legacy.antt =====
-- The first version of the program, netdj/src.
pub mod Text
pub mod File
pub mod Directory
pub mod CurrentSong
pub mod State
pub mod Http
pub mod Regex
pub mod Stream
pub mod Config
pub mod Access
pub mod Program
pub mod Commands
pub mod Player
pub mod Web
pub mod Main
pub mod Daemon
pub mod Frame
pub mod Reach
