-- ===== src/Tests/Decoding.antt =====
-- Decoders: Base64 and ID3 tags, and the random index.
use netdj.Prelude.{◌≡◌, ◌≢◌, refl, some, [], ◌++◌, Text, codes, arith}
use netdj.Base64.{base64_decode}
use netdj.Base64.Encode.{encode}
use netdj.Base64.RoundTrip.{base64_decode-encode}
use netdj.Id3Tag.{Tags, find_style, init_from_file, loaded, fault}
use netdj.Id3Tag.RoundTrip.{init_from_file-write_tag, init_from_file-ne-fault, write_tag, FitsTag}
use netdj.Tests.Samples.{clear_memory}

abbrev login : Text
login = codes "dj:pw"

base64_decode-encode_example : base64_decode clear_memory (encode login) ≡ login
base64_decode-encode_example = base64_decode-encode clear_memory login (ground arith)

decode_login : base64_decode clear_memory (codes "ZGo6cHc=") ≡ login
unfolding base64_decode
decode_login = refl

abbrev small_tag : Tags
small_tag = record {
  title = codes "T";
  artist = codes "A";
  album = codes "L";
  year = codes "1999";
  note = [];
  style = [];
}

small_tag-FitsTag : FitsTag small_tag
small_tag-FitsTag = record {
  title = record { short = omega arith; clean = refl; plain = refl };
  artist = record { short = omega arith; clean = refl; plain = refl };
  album = record { short = omega arith; clean = refl; plain = refl };
  year = record { short = omega arith; clean = refl; plain = refl };
  note = record { short = omega arith; clean = refl; plain = refl };
}

init_from_file-write_tag_example :
    init_from_file (some (codes "audio" ++ write_tag b' ' small_tag 9))
    ≡ loaded (record small_tag { style = find_style 9 })
init_from_file-write_tag_example =
    init_from_file-write_tag b' ' (codes "audio") small_tag 9 refl small_tag-FitsTag

init_from_file-ne-fault_example : init_from_file (some (codes "TAG")) ≢ fault
init_from_file-ne-fault_example = init_from_file-ne-fault (some (codes "TAG"))
