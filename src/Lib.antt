-- ===== src/Lib.antt =====
-- A model of NetDJ, a jukebox that streams songs to an Icecast server and is steered over HTTP, and
-- what is proved of it. NetDJ has two versions: netdj2/engine, and the first one, netdj/src.
--
-- The parts and their files:
--   * Songlist, Songlist/Dir, Songlist/ListFile: the lists of songs, `CollectionBase` and
--     `Collection_Songlist` with its subclasses `_Dir` and `_File` (netdj2/engine/Collection*.cpp).
--     A list is one record whose `kind` tells the class. Song is `SongFile` (SongFile.cpp).
--   * Collections: the ordered lists, `GetNextSong` and `GetCollection` (Collections.cpp).
--   * Rand, Base64: `get_rand` and `base64_decode` (util.cpp; netdj/src/util.cc has them too).
--   * Player: `PlayerThread` (PlayerThread.cpp). It takes songs from Collections and
--     sends them by Shout, the wrapper of libshout (Shout.cpp).
--   * Server with Server/Auth, Server/Commands, Server/Requests and Server/Texts: the HTTP server and
--     its commands (Server.cpp, Client.cpp). It asks Access, the user file (AccessChecker.cpp), who
--     may do what, and emits signals to which the player and the event loop listen.
--   * Log: the log service and the file logger (LogService.cpp, FileLogger.cpp). The server passes
--     entries on to the clients that asked for them.
--     Log/Threads has `Emit` and `event` once more, as the steps of threads that interleave, and
--     Log/Threads/Schedule relates the two.
--   * Config: the configuration (Configuration.cpp).
--   * SongInfo, SongXml: the XML of songs and lists (SongInfoBase.cpp, SongFile.cpp,
--     CollectionBase.cpp). SongInfo/File is what TagLib finds (SongInfoFile.cpp), and SongXml/Object a
--     song that keeps what was found.
--   * Engine: the whole of the second version, as main() connects it, and the change of its user
--     (main.cpp). Engine/Start is main() up to the event loop, with the constructor of the server in
--     Server/Start; Engine/Events has what happens from outside; Engine/Reach is the whole as a machine
--     whose steps come in any order.
--   * Import: the import into a database (netdj2/db/main.cpp).
--   * Id3Tag: tags of version 1 (netdj/src/ID3Tag.cc).
--   * Legacy: the first version. Its threads share one state, Legacy/Program, whose parts are
--     Legacy/Directory (Directory.cc: the requests, the cache and the share; its songs are of
--     Legacy/File, File.cc), Legacy/Config (Configuration.cc), Legacy/Access (AccessConf.cc) and
--     Legacy/CurrentSong. Legacy/Stream is `getline`, Legacy/Http the packets of the web (HTTP.cc; how
--     they are parsed is in Http/Parse, and Legacy/Regex is MyRegex.cc), and Legacy/Text what is used of strings and maps. Of main.cc, Legacy/Commands has the commands and
--     `execute_line`, Legacy/Player the rounds of `player_thread` and Player/Thread the whole of it, Legacy/Web
--     with Web/Pages and Web/Html the answers of `http_thread`, Legacy/State the saved time stamp, and
--     Legacy/Main start and end. Legacy/Daemon has the fork and the start of
--     `http_thread`. Legacy/Reach runs connections, players and songs in any order.
--   * Prelude: shared names and helpers. Qt, Xml: the interfaces of QString and QDom. Outcome: how a
--     call ends. Tests: the theorems at concrete inputs.
--
-- A method that changes an object is a function from the old record to the new one. Exceptions, reads
-- of what was never written or lies outside of a container, and loops that have not ended are values:
-- `Outcome` of lists and collections, `Handled` of the server, `Ending` of the player, `Init` of tags,
-- `Run` of the first version. What comes from outside is an argument: the contents of files and
-- directories, the results of `rand`, the time, and what uninitialised memory holds. Qt, libshout, the
-- parser of requests and the regular expressions of the C library are interfaces. Each 32-bit counter wraps
-- where the code's does. A mutex makes an operation one step. event() of the log service takes none: in
-- Log it is one step, as where no other thread interrupts it, and Log/Threads takes it and Emit apart.
-- There each call of a method of the queue is one step, and `append`, `first` and `next` move the queue's
-- current item as Qt documents it. The steps of threads and of Engine/Reach and Legacy/Reach need no fuel.
--
-- The directory's `Update` runs on fuel, and as many rounds as the directory has entries are enough.
-- The loops over the lines of the first version's files run on fuel too: two rounds more than there are
-- lines are enough, if each line fits into the buffer. Its loops over regular expressions get one round
-- for each character. The players' main loops take one round for each element of a list that says
-- what the round meets. `ulp` of Rand runs on 40 rounds, one for each bit of a number above its 24th, which
-- are fewer for products below 2 ^ 64; `decimal` writes 20 digits, enough below 10 ^ 20.
--
-- Not modelled: sockets (ServerSocket.cpp), the insides of TagLib, Qt, popt and the database, what
-- destructors free, and the stubs of the client library (netdj2/clientlib). Of the first version: the
-- wrapper of the mutex (Lockable.cc), that threads may see the shared state between the steps of another,
-- levels of users from 2 ^ 31 on, and a saved time stamp of 0, of which loadstate makes -1.
pub mod Prelude
pub mod Access
pub mod Base64
pub mod Collections
pub mod Config
pub mod Engine
pub mod Id3Tag
pub mod Import
pub mod Legacy
pub mod Log
pub mod Outcome
pub mod Player
pub mod Qt
pub mod Rand
pub mod Server
pub mod Shout
pub mod Song
pub mod SongInfo
pub mod SongXml
pub mod Songlist
pub mod Tests
pub mod Xml
