-- ===== src/SongXml.antt =====
-- The XML of songs and collections: `SongFile::AsXML` of netdj2/engine/SongFile.cpp and
-- `CollectionBase::AsXML` of CollectionBase.cpp. What TagLib finds in a file is an argument.
pub mod Object
use netdj.Prelude.{ℕ, ◌+◌, Bool, List, [], ◌∷◌, Text, codes, if◌then◌else◌}
use netdj.Outcome.{Outcome, returns, throws, faults, spins}
use netdj.Song.{Song}
use netdj.SongInfo.{SongInfo, create_xml}
use netdj.Songlist.{Songlist, size}
use netdj.Collections.{World, update}
use netdj.Xml.{Dom, text_element}

module _ {X : Type 0} (dom : Dom X) (info : Text → SongInfo) where
  -- SongFile::AsXML
  unfoldable pub song_xml : Song → X
  song_xml s =
      dom.append_child (dom.set_number (dom.element (codes "song")) (codes "unid") s.unid)
        (create_xml dom (info s.filename))

  -- the loop over the songs, from position `i` on
  unfoldable pub append_entries : ℕ → List Song → X → X
  unfolding song_xml
  append_entries i [] col = col
  append_entries i (s ∷ ss) col = append_entries (i + 1) ss (
      dom.append_child col (
        dom.append_child (dom.set_number (dom.element (codes "entry")) (codes "position") i)
          (song_xml s)))

  -- what AsXML writes of the collection as it is
  unfoldable pub list_xml : Songlist → X
  unfolding append_entries size
  list_xml c =
      let col = dom.set_attribute (dom.element (codes "collection")) (codes "id") c.identifier in
      let described = dom.append_child col (text_element dom (codes "description") c.description) in
      let sized = dom.append_child described (text_element dom (codes "size") (dom.num (size c))) in
      append_entries 0 c.songs sized

  xml_after : Songlist × Outcome (Unit {0}) → Songlist × Outcome X
  xml_after (c, returns u) = (c, returns (list_xml c))
  xml_after (c, throws e) = (c, throws e)
  xml_after (c, faults) = (c, faults)
  xml_after (c, spins) = (c, spins)

  -- CollectionBase::AsXML; the flag is the configuration's UPDATE_BEFORE_TRANSMIT
  unfoldable pub collection_xml : World → Bool → Songlist → Songlist × Outcome X
  unfolding xml_after list_xml
  collection_xml w update_first c =
      if update_first then xml_after (update w c) else (c, returns (list_xml c))
