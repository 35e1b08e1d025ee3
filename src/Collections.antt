-- ===== src/Collections.antt =====
-- `Collections` of netdj2/engine/Collections.cpp, and the virtual call of `Update` on its members.
-- The pointers to collections and songs are positions and values: the player reads a song and
-- changes none.
pub mod Priority
use netdj.Prelude.{
  ℕ, ◌+◌, Bool, false, Option, none, some, List, [], ◌∷◌, ◌++◌, map, Text, text_eq, if◌then◌else◌,
}
use netdj.Outcome.{
  Outcome, returns, throws, faults, spins, Exception, std_exception, empty_collection, server_error,
}
use netdj.Song.{Song}
use netdj.Songlist.{Songlist, Kind, plain, dir, list_file, make, get_next_song}
use netdj.Songlist.Dir.{Listing, update_dir}
use netdj.Songlist.ListFile.{SongFileList, update_list_file}

-- What a round of calls finds outside of the program: the directories and files, the rounds that are
-- allowed to a loop, and what fresh memory holds.
pub record World : Type 0 where
  pub directory : Text → Listing
  pub file : Text → SongFileList
  pub fuel : ℕ
  pub memory : ℕ → Bool

-- the virtual `Update()`
unfoldable pub update_kind : World → Kind → Songlist → Songlist × Outcome (Unit {0})
update_kind w plain c = (c, returns tt)
update_kind w (dir directory stamp delete_after) c =
    update_dir w.fuel w.memory (w.directory directory) directory stamp delete_after c
update_kind w (list_file filename filedate) c =
    update_list_file w.memory (w.file filename) filename filedate c

unfoldable pub update : World → Songlist → Songlist × Outcome (Unit {0})
unfolding update_kind
update w c = update_kind w c.kind c

-- Collection_Songlist_Dir(aId, aDescr, aDir, aIsQ, aDelete) and Collection_Songlist_File(aId, aDescr,
-- aName): the constructors call `Update`.
unfoldable pub make_dir : World → Text → Text → Text → Bool → Bool → Songlist × Outcome (Unit {0})
unfolding update
make_dir w id descr directory is_q delete = update w (make id descr is_q (dir directory 0 delete))

unfoldable pub make_list_file : World → Text → Text → Text → Songlist × Outcome (Unit {0})
unfolding update
make_list_file w id descr filename = update w (make id descr false (list_file filename 0))

-- AddCollection(aCol)
unfoldable pub add_collection : Songlist → List Songlist → List Songlist
add_collection c cols = cols ++ c ∷ []

-- GetCollection(aName): the first of that name, or 0
unfoldable pub get_collection : Text → List Songlist → Option Songlist
get_collection name [] = none
get_collection name (c ∷ rest) =
    let other = get_collection name rest in if text_eq c.identifier name then some c else other

-- the body of the `try`: `Update()`, then `GetNextSong()`
unfoldable pub take_after : ℕ → Songlist × Outcome (Unit {0}) → Songlist × Outcome Song
take_after rand (c, returns u) = get_next_song rand c
take_after rand (c, throws e) = (c, throws e)
take_after rand (c, faults) = (c, faults)
take_after rand (c, spins) = (c, spins)

unfoldable pub attempt : World → ℕ → Songlist → Songlist × Outcome Song
unfolding take_after
attempt w rand c = take_after rand (update w c)

-- the position of the collection, one further on
unfoldable pub shift : Outcome (Option (Song × ℕ)) → Outcome (Option (Song × ℕ))
shift (returns (some (s, i))) = returns (some (s, i + 1))
shift (returns none) = returns none
shift (throws e) = throws e
shift faults = faults
shift spins = spins

-- What the loop does with an attempt: `rest` is its next round, where the exception is caught.
unfoldable pub select :
    List Songlist
    → List Songlist × Outcome (Option (Song × ℕ))
    → Songlist × Outcome Song
    → List Songlist × Outcome (Option (Song × ℕ))
select after rest (c, returns s) = (c ∷ after, returns (some (s, 0)))
select after rest (c, throws (empty_collection m)) = (c ∷ rest.0, shift rest.1)
select after rest (c, throws (std_exception m)) = (c ∷ after, throws (std_exception m))
select after rest (c, throws (server_error m)) = (c ∷ after, throws (server_error m))
select after rest (c, faults) = (c ∷ after, faults)
select after rest (c, spins) = (c ∷ after, spins)

-- GetNextSong(aSong, aCol): the song with the position of its collection, or `none` for `false`
unfoldable pub next_song : World → ℕ → List Songlist → List Songlist × Outcome (Option (Song × ℕ))
unfolding select shift
next_song w rand [] = ([], returns none)
next_song w rand (c ∷ after) =
    let rest = next_song w rand after in select after rest (attempt w rand c)
