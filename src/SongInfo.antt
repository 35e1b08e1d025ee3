-- ===== src/SongInfo.antt =====
-- `SongInfoBase` of netdj2/engine/SongInfoBase.cpp: what is known of a song, and its XML. How
-- its subclass `SongInfoFile` fills it is in SongInfo/File.antt.
pub mod File
use netdj.Prelude.{
  ℕ, ◌≡◌, refl, List, [], ◌∷◌, ◌++◌, Text, codes, is_empty, ◌==◌, if◌then◌else◌, Bool-cases, inl,
  inr,
}
use netdj.Xml.{Dom, text_element}

-- MediaType_t
pub data MediaType : Type 0 where
  unknown mp3 ogg : MediaType

pub record SongInfo : Type 0 where
  pub description : Text
  pub artist : Text
  pub album : Text
  pub title : Text
  pub genre : Text
  pub track : ℕ
  pub year : ℕ
  pub size : ℕ
  pub owner : Text
  pub length : ℕ
  pub media_type : MediaType

media_str : MediaType → Text
media_str mp3 = codes "MP3"
media_str ogg = codes "OGG"
media_str unknown = []

module _ {X : Type 0} (dom : Dom X) where
  append_media : Text → X → X
  append_media media node =
      if is_empty media
      then node
      else dom.append_child node (text_element dom (codes "mediatype") media)

  -- the loop over the string fields
  append_strings : List (Text × Text) → X → X
  append_strings [] node = node
  append_strings ((value, name) ∷ rest) node =
      append_strings rest
        (if is_empty value then node else dom.append_child node (text_element dom name value))

  -- the loop over the numbers
  append_numbers : List (ℕ × Text) → X → X
  append_numbers [] node = node
  append_numbers ((value, name) ∷ rest) node =
      append_numbers rest
        (if value == 0 then node else dom.append_child node (text_element dom name (dom.num value)))

  -- CreateXML()
  unfoldable pub create_xml : SongInfo → X
  unfolding append_media append_strings append_numbers media_str
  create_xml i =
      append_numbers
        ((i.track, codes "track")
          ∷ (i.year, codes "year")
          ∷ (i.size, codes "size")
          ∷ (i.length, codes "length")
          ∷ [])
        (append_strings
          ((i.description, codes "description")
            ∷ (i.artist, codes "artist")
            ∷ (i.album, codes "album")
            ∷ (i.title, codes "title")
            ∷ (i.genre, codes "genre")
            ∷ (i.owner, codes "owner")
            ∷ [])
          (append_media (media_str i.media_type) (dom.element (codes "songinfo"))))

  abbrev pub append_all : List X → X → X
  append_all [] node = node
  append_all (x ∷ xs) node = append_all xs (dom.append_child node x)

  append_all-++ :
      (xs ys : List X) (node : X) → append_all (xs ++ ys) node ≡ append_all ys (append_all xs node)
  append_all-++ [] ys node = refl
  append_all-++ (x ∷ xs) ys node = append_all-++ xs ys (dom.append_child node x)

  pub string_children : List (Text × Text) → List X
  string_children [] = []
  string_children ((value, name) ∷ rest) =
      let more = string_children rest in
      if is_empty value then more else text_element dom name value ∷ more

  append_strings-children :
      (fs : List (Text × Text)) (node : X)
      → append_strings fs node ≡ append_all (string_children fs) node
  unfolding append_strings string_children
  append_strings-children [] node = refl
  append_strings-children (([], name) ∷ rest) node = append_strings-children rest node
  append_strings-children ((c ∷ v, name) ∷ rest) node =
      append_strings-children rest (dom.append_child node (text_element dom name (c ∷ v)))

  pub number_children : List (ℕ × Text) → List X
  number_children [] = []
  number_children ((value, name) ∷ rest) =
      let more = number_children rest in
      if value == 0 then more else text_element dom name (dom.num value) ∷ more

  append_numbers-children :
      (fs : List (ℕ × Text)) (node : X)
      → append_numbers fs node ≡ append_all (number_children fs) node
  unfolding append_numbers number_children
  append_numbers-children [] node = refl
  append_numbers-children ((value, name) ∷ rest) node = elim (Bool-cases (value == 0)) [
    | inl e ↦ rw e (append_numbers-children rest node)
    | inr e ↦ rw e (
        append_numbers-children rest
          (dom.append_child node (text_element dom name (dom.num value))))
  ]

  -- The children of a song's element: its media type, texts and numbers, the empty ones left out.
  pub children : SongInfo → List X
  unfolding media_str
  children i =
      string_children ((media_str i.media_type, codes "mediatype") ∷ [])
      ++ (string_children (
            (i.description, codes "description")
            ∷ (i.artist, codes "artist")
            ∷ (i.album, codes "album")
            ∷ (i.title, codes "title")
            ∷ (i.genre, codes "genre")
            ∷ (i.owner, codes "owner")
            ∷ [])
          ++ number_children (
              (i.track, codes "track")
              ∷ (i.year, codes "year")
              ∷ (i.size, codes "size")
              ∷ (i.length, codes "length")
              ∷ []))

  append_media-children :
      (media : Text) (node : X)
      → append_media media node
        ≡ append_all (string_children ((media, codes "mediatype") ∷ [])) node
  unfolding append_media string_children
  append_media-children [] node = refl
  append_media-children (c ∷ media) node = refl

  -- The XML of a song's information is an element `songinfo` with these children in this order: a
  -- field of the record is in it exactly if it is not empty, or not 0.
  pub create_xml-children :
      (i : SongInfo) → create_xml i ≡ append_all (children i) (dom.element (codes "songinfo"))
  unfolding create_xml children media_str
  create_xml-children i = rw (
    append_numbers-children, append_strings-children, append_media-children, append_all-++,
    append_all-++,
  )
