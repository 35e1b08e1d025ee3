-- ===== src/SongInfo/File.antt =====
-- `SongInfoFile` of netdj2/engine/SongInfoFile.cpp, a song's information as the system and TagLib give
-- it, and the object of `SongInfoBase` that keeps its XML (SongInfoBase.cpp). What QFileInfo and
-- TagLib answer and two functions on texts of Qt are arguments.
use netdj.Prelude.{
  ℕ, ◌%◌, ◌^◌, Bool, true, false, not, ◌&&◌, Option, none, some, [], ◌++◌, Text, codes, text_eq,
  is_empty, if◌then◌else◌,
}
use netdj.Outcome.{Outcome, returns, faults}
use netdj.SongInfo.{SongInfo, MediaType, mp3, unknown, create_xml}
use netdj.Xml.{Dom}

-- The fields of TagLib's tag that are read.
pub record Tag : Type 0 where
  pub album : Text
  pub title : Text
  pub artist : Text
  pub genre : Text
  pub track : ℕ
  pub year : ℕ

-- What the system and TagLib say of a file. The tag and the audio properties are null pointers, `none`,
-- where TagLib cannot read the file.
pub record Details : Type 0 where
  pub is_readable : Bool
  pub owner : Text
  pub size : ℕ
  pub file_name : Text
  pub tag : Option Tag
  pub length : Option ℕ

-- SongInfoBase()
unfoldable pub new_info : SongInfo
new_info = record {
  description = [];
  artist = [];
  album = [];
  title = [];
  genre = [];
  track = 0;
  year = 0;
  size = 0;
  owner = [];
  length = 0;
  media_type = unknown;
}

unfoldable pub description_of : Tag → Text → Text
description_of t file_name =
    if not (is_empty t.title) && not (is_empty t.artist)
    then t.artist ++ (codes " - " ++ t.title)
    else file_name

module _ (right : ℕ → Text → Text) (lower : Text → Text) where
  unfoldable pub media_of : Text → MediaType
  media_of filename = if text_eq (lower (right 3 filename)) (codes "mp3") then mp3 else unknown

  -- what is stored of a file with a tag and audio properties
  unfoldable pub tagged : Text → Details → Tag → ℕ → SongInfo
  unfolding description_of media_of
  tagged filename d t length = record {
    description = description_of t d.file_name;
    artist = t.artist;
    album = t.album;
    title = t.title;
    genre = t.genre;
    track = t.track;
    year = t.year;
    size = d.size % 2 ^ 32;
    owner = d.owner;
    length = length;
    media_type = media_of filename;
  }

  -- tag() and audioProperties() are not tested before they are used
  unfoldable pub from_pointers : Text → Details → Option Tag → Option ℕ → Outcome SongInfo
  from_pointers filename d none length = faults
  from_pointers filename d (some t) none = faults
  from_pointers filename d (some t) (some n) = returns (tagged filename d t n)

  -- SongInfoFile(aFilename)
  unfoldable pub song_info_file : Text → Details → Outcome SongInfo
  unfolding from_pointers new_info
  song_info_file filename d =
      if not d.is_readable then returns new_info else from_pointers filename d d.tag d.length

-- An object of SongInfoBase, with `mXMLValid` and `mInfoNode`
pub record InfoObject (X : Type 0) : Type 0 where
  pub info : SongInfo
  pub xml_valid : Bool
  pub info_node : X

-- an object as its constructor leaves it; the node is no element yet
unfoldable pub new_object : {X : Type 0} → X → SongInfo → InfoObject X
new_object null_node i = record { info = i; xml_valid = false; info_node = null_node }

module _ {X : Type 0} (dom : Dom X) where
  unfoldable pub with_xml : InfoObject X → InfoObject X
  with_xml o =
      if not o.xml_valid
      then record o { xml_valid = true; info_node = create_xml dom o.info }
      else o

  -- AsXML(aDocument), where `import_node` is the importNode of the document
  unfoldable pub as_xml : (X → X) → InfoObject X → InfoObject X × X
  unfolding with_xml
  as_xml import_node o = let o' = with_xml o in (o', import_node o'.info_node)
