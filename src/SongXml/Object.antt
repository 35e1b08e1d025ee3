-- ===== src/SongXml/Object.antt =====
-- A song as an object, with the information that it keeps: `GetSongInfo` and `AsXML` of
-- netdj2/engine/SongFile.cpp over `AsXML` of SongInfoBase.cpp. The files may change between two calls.
use netdj.Prelude.{
  ℕ, ◌≡◌, refl, ap, Bool, true, false, Option, none, some, List, [], ◌∷◌, map, Text, codes,
}
use mathlib.Core.Bool.{false≢true}
use netdj.Outcome.{Outcome, returns, throws, faults, spins}
use netdj.Song.{Song}
use netdj.SongInfo.{SongInfo, create_xml}
use netdj.SongInfo.File.{Details, song_info_file, InfoObject, new_object, with_xml, as_xml}
use netdj.SongXml.{song_xml}
use netdj.Xml.{Dom}

-- `mSongInfo` is a null pointer, `none`, until somebody asks for the information.
pub record SongObject (X : Type 0) : Type 0 where
  pub song : Song
  pub song_info : Option (InfoObject X)

module _ {X : Type 0} (dom : Dom X) (null_node : X) (import_node : X → X) (right : ℕ → Text → Text)
    (lower : Text → Text) where
  made : Outcome SongInfo → Outcome (InfoObject X)
  made (returns i) = returns (new_object null_node i)
  made (throws e) = throws e
  made faults = faults
  made spins = spins

  -- GetSongInfo(), on what the files are at the time
  unfoldable pub get_song_info : (Text → Details) → SongObject X → Outcome (InfoObject X)
  unfolding made
  get_song_info disk s = elim s.song_info [
    | none ↦ made (song_info_file right lower s.song.filename (disk s.song.filename))
    | some o ↦ returns o
  ]

  appended : SongObject X → Outcome (InfoObject X) → Outcome (SongObject X × X)
  appended s (returns o) =
      let r = as_xml dom import_node o in
      returns (
        record s { song_info = some r.0 },
        dom.append_child (dom.set_number (dom.element (codes "song")) (codes "unid") s.song.unid)
            r.1,
      )
  appended s (throws e) = throws e
  appended s faults = faults
  appended s spins = spins

  -- AsXML(aDocument)
  unfoldable pub song_as_xml : (Text → Details) → SongObject X → Outcome (SongObject X × X)
  unfolding appended
  song_as_xml disk s = appended s (get_song_info disk s)

  shown : X → Outcome (List X) → Outcome (List X)
  shown x (returns xs) = returns (x ∷ xs)
  shown x (throws e) = throws e
  shown x faults = faults
  shown x spins = spins

  -- What AsXML returns when it is called once with each state of the files.
  pub show_all : List (Text → Details) → SongObject X → Outcome (List X)
  show_all [] s = returns []
  show_all (disk ∷ disks) s = elim (song_as_xml disk s) [
    | returns r ↦ shown r.1 (show_all disks r.0)
    | throws e ↦ throws e
    | faults ↦ faults
    | spins ↦ spins
  ]

  -- An object that keeps some information: its node, where it is marked as valid, is their XML.
  record Keeps (o : InfoObject X) (i : SongInfo) : Type 0 where
    same : o.info ≡ i
    node : o.xml_valid ≡ true → o.info_node ≡ create_xml dom i

  Keeps-new_object : (i : SongInfo) → Keeps (new_object null_node i) i
  unfolding new_object
  Keeps-new_object i = record { same = refl; node = λ h. absurd (false≢true h) }

  Keeps-fields :
      (j i : SongInfo) (valid : Bool) (n : X)
      → Keeps (record { info = j; xml_valid = valid; info_node = n }) i
      → Keeps (as_xml dom import_node (record { info = j; xml_valid = valid; info_node = n })).0 i
        × ((as_xml dom import_node (record { info = j; xml_valid = valid; info_node = n })).1
            ≡ import_node (create_xml dom i))
  unfolding as_xml with_xml
  Keeps-fields j i true n k = (k, ap import_node (k.node refl))
  Keeps-fields j i false n k = (
    record { same = k.same; node = λ h. ap (create_xml dom) k.same },
    ap (λ x. import_node (create_xml dom x)) k.same,
  )

  Keeps-as_xml :
      (o : InfoObject X) (i : SongInfo)
      → Keeps o i
      → Keeps (as_xml dom import_node o).0 i
        × ((as_xml dom import_node o).1 ≡ import_node (create_xml dom i))
  Keeps-as_xml o i k = Keeps-fields o.info i o.xml_valid o.info_node k

  -- A song whose object keeps some information shows it whatever becomes of the files.
  show_all-Keeps :
      ((x : X) → import_node x ≡ x)
      → (disks : List (Text → Details)) (song : Song) (o : InfoObject X) (i : SongInfo) → Keeps o i
      → show_all disks (record { song = song; song_info = some o })
        ≡ returns (map (λ disk. song_xml dom (λ f. i) song) disks)
  unfolding show_all shown song_as_xml appended get_song_info song_xml
  show_all-Keeps law [] song o i k = refl
  show_all-Keeps law (disk ∷ disks) song o i k =
      let (kept, node) = Keeps-as_xml o i k in
      rw (show_all-Keeps law disks song (as_xml dom import_node o).0 i kept, node, law) refl

  -- Where the object of a song was just made and its file is one whose tags can be read, or that cannot
  -- be read at all, every AsXML of it shows what the file held at the first of them, whatever becomes
  -- of the files between the calls; importNode is taken to copy the node.
  pub show_all-song_info_file :
      ((x : X) → import_node x ≡ x)
      → (disk : Text → Details) (disks : List (Text → Details)) (song : Song) (i : SongInfo)
      → song_info_file right lower song.filename (disk song.filename) ≡ returns i
      → show_all (disk ∷ disks) (record { song = song; song_info = none })
        ≡ returns (map (λ d. song_xml dom (λ f. i) song) (disk ∷ disks))
  unfolding show_all shown song_as_xml appended get_song_info song_xml made
  show_all-song_info_file law disk disks song i h =
      let o = new_object null_node i in
      let (kept, node) = Keeps-as_xml o i (Keeps-new_object i) in
      let next = show_all-Keeps law disks song (as_xml dom import_node o).0 i kept in
      rw (show_all, song_as_xml, get_song_info, h, next, node, law) refl
