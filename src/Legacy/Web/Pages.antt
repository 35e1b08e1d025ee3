-- ===== src/Legacy/Web/Pages.antt =====
-- What the pages of `http_thread` say of the songs and the lists.
use netdj.Prelude.{
  ℕ, ◌+◌, ◌-◌, not, ◌&&◌, ◌||◌, List, [], ◌∷◌, ◌++◌, map, Text, codes, length, ltb, leb, ◌==◌,
  if◌then◌else◌,
}
use netdj.Id3Tag.{Tags}
use netdj.Legacy.Text.{flat, decimal}
use netdj.Legacy.File.{Disk, File, get_size, get_filename_no_type, get_id3_info, get_owner}
use netdj.Legacy.Directory.{Directory, get_entries}
use netdj.Legacy.Web.Html.{hbuf1, hbuf2, hbuf3, hbuf4, hbuf5}

-- "    <name>" + content + "</name>\n"
element : Text → Text → Text
element name content =
    flat (codes "    <" ∷ name ∷ codes ">" ∷ content ∷ codes "</" ∷ name ∷ codes ">\n" ∷ [])

-- The elements of a tag; the file's size in front, its owner where it has one.
tag_xml : Tags → Text
unfolding element
tag_xml t = flat (
    element (codes "artist") t.artist
    ∷ element (codes "album") t.album
    ∷ element (codes "title") t.title
    ∷ element (codes "comment") t.note
    ∷ element (codes "year") t.year
    ∷ element (codes "style") t.style
    ∷ [])

unfoldable pub current_xml : Disk → File → Text
unfolding tag_xml
current_xml disk f = flat (
    codes "  <currentsong>\n"
    ∷ element (codes "unid") (codes "0")
    ∷ element (codes "listid") (codes "current")
    ∷ element (codes "size") (decimal (get_size disk f))
    ∷ element (codes "description") (get_filename_no_type f)
    ∷ tag_xml (get_id3_info disk f).id3
    ∷ codes "  </currentsong>\n"
    ∷ [])

-- one song of a list, with its number
unfoldable pub song_xml : Disk → ℕ → Text → File → Text
unfolding tag_xml
song_xml disk songno shname f = flat (
    codes "  <song id=\""
    ∷ decimal songno
    ∷ codes "\">\n"
    ∷ element (codes "unid") (decimal f.id)
    ∷ element (codes "listid") shname
    ∷ element (codes "size") (decimal (get_size disk f))
    ∷ element (codes "owner") (get_owner disk f)
    ∷ element (codes "description") (get_filename_no_type f)
    ∷ tag_xml (get_id3_info disk f).id3
    ∷ codes "  </song>\n"
    ∷ [])

-- The songs of the loop over the lists, which ends with 10 of them.
unfoldable pub picked : ℕ → List Directory → List (Text × File)
picked songsgot [] = []
picked songsgot (d ∷ ds) =
    let songs = get_entries (10 - songsgot) d in
    let more = picked (songsgot + length songs) ds in
    map (λ f. (d.shname, f)) songs ++ (if leb 10 (songsgot + length songs) then [] else more)

songs_xml : Disk → ℕ → List (Text × File) → Text
songs_xml disk songno [] = []
songs_xml disk songno ((shname, f) ∷ rest) =
    song_xml disk (songno + 1) shname f ++ songs_xml disk (songno + 1) rest

lists_xml : List Directory → List ℕ → Text
unfolding element
lists_xml (d ∷ ds) (n ∷ ns) = flat (
    codes "  <list>\n"
    ∷ element (codes "size") (decimal n)
    ∷ element (codes "id") d.shname
    ∷ element (codes "description") d.descr
    ∷ codes "  </list>\n"
    ∷ lists_xml ds ns
    ∷ [])
lists_xml ds ns = []

-- "Replace illegal characters"
unfoldable pub legal : ℕ → ℕ
legal ch =
    if (ch == b'&' || ch == b'`' || ltb 127 ch || ltb ch 32) && not (ch == 10) && not (ch == 13)
    then 32
    else ch

-- xbuf, of the songs as they are before the sizes of the lists are asked for
unfoldable pub xbuf : Disk → File → List Directory → List Directory → List ℕ → Text
unfolding songs_xml lists_xml
xbuf disk f before dirs sizes = flat (
    codes "<?xml version=\"1.0\"?>\n"
    ∷ codes "<netdj id=\"netdj\" xmlns:html=\"http://www.w3.org/1999/xhtml\"\n"
    ∷ codes "                  xmlns:xlink=\"http://www.w3.org/1999/xlink\">\n"
    ∷ current_xml disk f
    ∷ songs_xml disk 0 (picked 0 before)
    ∷ lists_xml dirs sizes
    ∷ codes "</netdj>\n"
    ∷ [])

unfoldable pub xml_page : Disk → File → List Directory → List Directory → List ℕ → Text
xml_page disk f before dirs sizes = map legal (xbuf disk f before dirs sizes)

-- hbuf, with at most 10 songs of the cache
songs_html : List File → Text
songs_html [] = []
songs_html (f ∷ rest) =
    flat (codes "    " ∷ get_filename_no_type f ∷ codes "<BR>\n" ∷ songs_html rest ∷ [])

lists_html : List Directory → List ℕ → Text
lists_html (d ∷ ds) (n ∷ ns) = flat (
    codes "      <TR><TD>"
    ∷ decimal n
    ∷ codes "</TD><TD>"
    ∷ d.shname
    ∷ codes "</TD><TD>"
    ∷ d.descr
    ∷ codes "</TD></TR>\n"
    ∷ lists_html ds ns
    ∷ [])
lists_html ds ns = []

unfoldable pub html_page : File → Directory → List Directory → List ℕ → Text
unfolding songs_html lists_html
html_page f cache dirs sizes = flat (
    hbuf1
    ∷ get_filename_no_type f
    ∷ hbuf2
    ∷ decimal f.id
    ∷ hbuf3
    ∷ songs_html (get_entries 10 cache)
    ∷ hbuf4
    ∷ lists_html dirs sizes
    ∷ hbuf5
    ∷ [])
