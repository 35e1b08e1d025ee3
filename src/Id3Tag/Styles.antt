-- ===== src/Id3Tag/Styles.antt =====
-- The table `id3_styles` of netdj/src/ID3Tag.cc, in three parts as one literal is long. Its last
-- row has no name and ends the search.
use netdj.Prelude.{ℕ, Option, none, some, List, [], ◌∷◌, ◌++◌, Text, codes}

pub record Style : Type 0 where
  pub styleid : ℕ
  pub name : Option Text

abbrev style : ℕ → Text → Style
style i s = record { styleid = i; name = some s }

early_styles : List Style
early_styles =
    style 0x00 (codes "Blues")
    ∷ style 0x01 (codes "Classic Rock")
    ∷ style 0x02 (codes "Country")
    ∷ style 0x03 (codes "Dance")
    ∷ style 0x04 (codes "Disco")
    ∷ style 0x05 (codes "Funk")
    ∷ style 0x06 (codes "Grunge")
    ∷ style 0x07 (codes "Hip-Hop")
    ∷ style 0x08 (codes "Jazz")
    ∷ style 0x09 (codes "Metal")
    ∷ style 0x0A (codes "New Age")
    ∷ style 0x0B (codes "Oldies")
    ∷ style 0x0C (codes "Other")
    ∷ style 0x0D (codes "Pop")
    ∷ style 0x0E (codes "R&B")
    ∷ style 0x0F (codes "Rap")
    ∷ style 0x10 (codes "Reggae")
    ∷ style 0x11 (codes "Rock")
    ∷ style 0x12 (codes "Techno")
    ∷ style 0x13 (codes "Industrial")
    ∷ style 0x14 (codes "Alternative")
    ∷ style 0x15 (codes "Ska")
    ∷ style 0x16 (codes "Death Metal")
    ∷ style 0x17 (codes "Pranks")
    ∷ style 0x18 (codes "Soundtrack")
    ∷ style 0x19 (codes "Euro-Techno")
    ∷ style 0x1A (codes "Ambient")
    ∷ style 0x1B (codes "Trip-Hop")
    ∷ style 0x1C (codes "Vocal")
    ∷ style 0x1D (codes "Jazz+Funk")
    ∷ style 0x1E (codes "Fusion")
    ∷ style 0x1F (codes "Trance")
    ∷ style 0x20 (codes "Classical")
    ∷ style 0x21 (codes "Instrumental")
    ∷ style 0x22 (codes "Acid")
    ∷ style 0x23 (codes "House")
    ∷ style 0x24 (codes "Game")
    ∷ style 0x25 (codes "Sound Clip")
    ∷ style 0x26 (codes "Gospel")
    ∷ style 0x27 (codes "Noise")
    ∷ style 0x28 (codes "Alt. Rock")
    ∷ style 0x29 (codes "Bass")
    ∷ style 0x2A (codes "Soul")
    ∷ style 0x2B (codes "Punk")
    ∷ style 0x2C (codes "Space")
    ∷ style 0x2D (codes "Meditative")
    ∷ style 0x2E (codes "Instrumental Pop")
    ∷ style 0x2F (codes "Instrumental Rock")
    ∷ style 0x30 (codes "Ethnic")
    ∷ []

middle_styles : List Style
middle_styles =
    style 0x31 (codes "Gothic")
    ∷ style 0x32 (codes "Darkwave")
    ∷ style 0x33 (codes "Techno-Industrial")
    ∷ style 0x34 (codes "Electronic")
    ∷ style 0x35 (codes "Pop-Folk")
    ∷ style 0x36 (codes "Eurodance")
    ∷ style 0x37 (codes "Dream")
    ∷ style 0x38 (codes "Southern Rock")
    ∷ style 0x39 (codes "Comedy")
    ∷ style 0x3A (codes "Cult")
    ∷ style 0x3B (codes "Gangsta")
    ∷ style 0x3C (codes "Top 40")
    ∷ style 0x3D (codes "Christian Rap")
    ∷ style 0x3E (codes "Pop/Funk")
    ∷ style 0x3F (codes "Jungle")
    ∷ style 0x40 (codes "Native US")
    ∷ style 0x41 (codes "Cabaret")
    ∷ style 0x42 (codes "New Wave")
    ∷ style 0x43 (codes "Psychadelic")
    ∷ style 0x44 (codes "Rave")
    ∷ style 0x45 (codes "Showtunes")
    ∷ style 0x46 (codes "Trailer")
    ∷ style 0x47 (codes "Lo-Fi")
    ∷ style 0x48 (codes "Tribal")
    ∷ style 0x49 (codes "Acid Punk")
    ∷ style 0x4A (codes "Acid Jazz")
    ∷ style 0x4B (codes "Polka")
    ∷ style 0x4C (codes "Retro")
    ∷ style 0x4D (codes "Musical")
    ∷ style 0x4E (codes "Rock & Roll")
    ∷ style 0x4F (codes "Hard Rock")
    ∷ style 0x50 (codes "Folk")
    ∷ style 0x51 (codes "Folk-Rock")
    ∷ style 0x52 (codes "National Folk")
    ∷ style 0x53 (codes "Swing")
    ∷ style 0x54 (codes "Fast Fusion")
    ∷ style 0x55 (codes "Bebob")
    ∷ style 0x56 (codes "Latin")
    ∷ style 0x57 (codes "Revival")
    ∷ style 0x58 (codes "Celtic")
    ∷ style 0x59 (codes "Bluegrass")
    ∷ style 0x5A (codes "Avantgarde")
    ∷ style 0x5B (codes "Gothic Rock")
    ∷ style 0x5C (codes "Progressive Rock")
    ∷ style 0x5D (codes "Psychedelic Rock")
    ∷ style 0x5E (codes "Symphonic Rock")
    ∷ style 0x5F (codes "Slow Rock")
    ∷ style 0x60 (codes "Big Band")
    ∷ style 0x61 (codes "Chorus")
    ∷ []

late_styles : List Style
late_styles =
    style 0x62 (codes "Easy Listening")
    ∷ style 0x63 (codes "Acoustic")
    ∷ style 0x64 (codes "Humour")
    ∷ style 0x65 (codes "Speech")
    ∷ style 0x66 (codes "Chanson")
    ∷ style 0x67 (codes "Opera")
    ∷ style 0x68 (codes "Chamber Music")
    ∷ style 0x69 (codes "Sonata")
    ∷ style 0x6A (codes "Symphony")
    ∷ style 0x6B (codes "Booty Bass")
    ∷ style 0x6C (codes "Primus")
    ∷ style 0x6D (codes "Porn Groove")
    ∷ style 0x6E (codes "Satire")
    ∷ style 0x6F (codes "Slow Jam")
    ∷ style 0x70 (codes "Club")
    ∷ style 0x71 (codes "Tango")
    ∷ style 0x72 (codes "Samba")
    ∷ style 0x73 (codes "Folklore")
    ∷ style 0x74 (codes "Ballad")
    ∷ style 0x75 (codes "Power Ballad")
    ∷ style 0x76 (codes "Rhytmic Soul")
    ∷ style 0x77 (codes "Freestyle")
    ∷ style 0x78 (codes "Duet")
    ∷ style 0x79 (codes "Punk Rock")
    ∷ style 0x7A (codes "Drum Solo")
    ∷ style 0x7B (codes "Acapella")
    ∷ style 0x7C (codes "Euro-House")
    ∷ style 0x7D (codes "Dance Hall")
    ∷ style 0x7E (codes "Goa")
    ∷ style 0x7F (codes "Drum & Bass")
    ∷ style 0x80 (codes "Club-House")
    ∷ style 0x81 (codes "Hardcore")
    ∷ style 0x82 (codes "Terror")
    ∷ style 0x83 (codes "Indie")
    ∷ style 0x84 (codes "BritPop")
    ∷ style 0x85 (codes "Negerpunk")
    ∷ style 0x86 (codes "Polsk Punk")
    ∷ style 0x87 (codes "Beat")
    ∷ style 0x88 (codes "Christian Gangsta Rap")
    ∷ style 0x89 (codes "Heavy Metal")
    ∷ style 0x8A (codes "Black Metal")
    ∷ style 0x8B (codes "Crossover")
    ∷ style 0x8C (codes "Contemporary Christian")
    ∷ style 0x8D (codes "Christian Rock")
    ∷ style 0x8E (codes "Merengue")
    ∷ style 0x8F (codes "Salsa")
    ∷ style 0x90 (codes "Trash Metal")
    ∷ record { styleid = 0xFF; name = none }
    ∷ []

unfoldable pub id3_styles : List Style
unfolding early_styles middle_styles late_styles
id3_styles = early_styles ++ middle_styles ++ late_styles
