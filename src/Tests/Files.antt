-- ===== src/Tests/Files.antt =====
-- The files of users and of the configuration, and the songs' XML.
use netdj.Prelude.{
  ◌-◌, ◌≤◌, ◌^◌, ◌≡◌, ◌↔◌, refl, true, false, none, some, List, [], ◌∷◌, Text, codes, text_eq,
}
use netdj.Access.{UserInfo, new_checker, init, has_access, is_comment, parse_line}
use netdj.Access.Entries.{last_entry, entry_for, has_access-init_iff}
use netdj.Config.{
  ConfFile, new_config, def_values, first_open, get_string, or_empty, init as init_conf,
}
use netdj.Config.Values.{last_value, pairs, or_else, get_string-init}
use netdj.Tests.Samples.{plain_text}

abbrev users : List Text
users = codes "# users" ∷ codes "dj:pw:500" ∷ codes "bad" ∷ []

has_access-init_iff_example :
    (has_access (codes "dj") (codes "pw") 200 (init plain_text (some users) new_checker).0 ≡ true)
    ↔ ((u : UserInfo) × (last_entry plain_text (codes "dj") users ≡ some u)
        × (u.password ≡ codes "pw")
        × (200 ≤ u.level))
has_access-init_iff_example = has_access-init_iff plain_text (codes "dj") (codes "pw") 200 users

abbrev negative_users : List Text
negative_users = codes "no:pw:-1" ∷ []

abbrev no_level : UserInfo
no_level = record { password = codes "pw"; level = 2 ^ 32 - 1 }

last_negative : last_entry plain_text (codes "no") negative_users ≡ some no_level
unfolding last_entry entry_for is_comment parse_line text_eq
last_negative = refl

abbrev conf : ConfFile
conf = record { lines = codes "SERVER_PORT=80" ∷ []; dir_path = codes "/etc" }

opened : first_open (none ∷ some conf ∷ []) ≡ some conf
unfolding first_open
opened = refl

other_key : text_eq (codes "CONFIG_DIR") (codes "SERVER_PORT") ≡ false
unfolding text_eq
other_key = refl

get_string-init_example :
    (get_string (codes "SERVER_PORT") (init_conf plain_text (none ∷ some conf ∷ []) new_config).0
      ≡ or_empty (
          or_else
            (last_value (codes "SERVER_PORT") (pairs plain_text conf.lines))
            (last_value (codes "SERVER_PORT") def_values)))
    × (get_string (codes "CONFIG_DIR") (init_conf plain_text (none ∷ some conf ∷ []) new_config).0
        ≡ conf.dir_path)
    × ((init_conf plain_text (none ∷ some conf ∷ []) new_config).1 ≡ true)
get_string-init_example =
    get_string-init plain_text (none ∷ some conf ∷ []) conf (codes "SERVER_PORT") opened other_key
