-- ===== src/Song.antt =====
-- `SongFile` of netdj2/engine/SongFile.cpp, without the song's information and its XML.
-- The constructor leaves `mDeleteAfterPlay` unset: what the memory of the new object held is an
-- argument, a function of the object's unique ID.
use netdj.Prelude.{ℕ, Bool, false, Text}

pub record Song : Type 0 where
  pub filename : Text
  pub unid : ℕ
  pub delete_after_play : Bool

-- SongFile(aName, aUNID)
unfoldable pub song_file : (ℕ → Bool) → Text → ℕ → Song
song_file memory name unid = record {
  filename = name;
  unid = unid;
  delete_after_play = memory unid;
}

-- SongFile(const SongFile&)
unfoldable pub copy : Song → Song
copy s = record s { delete_after_play = false }

-- operator=: the flag is not assigned
unfoldable pub assign : Song → Song → Song
assign s other = record s { filename = other.filename; unid = other.unid }

unfoldable pub set_delete_after_play : Bool → Song → Song
set_delete_after_play b s = record s { delete_after_play = b }
