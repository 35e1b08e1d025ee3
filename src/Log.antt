-- ===== src/Log.antt =====
-- `LogService` of netdj2/engine/LogService.cpp and `FileLogger` of FileLogger.cpp. A slot that is
-- called from the thread that owns the service emits its entry; from another thread the entry waits in
-- the queue until the event loop of the owner handles the event. The name of the sender, the time and
-- the thread are arguments.
pub mod Delivery
pub mod Threads
use netdj.Prelude.{
  ℕ, ◌+◌, ◌%◌, ◌^◌, Bool, true, false, Option, none, some, List, [], ◌∷◌, ◌++◌, Text, codes, ltb,
  if◌then◌else◌,
}
use netdj.Server.{EntryClass, crit, warn, info}
use netdj.Song.{Song}
use netdj.SongInfo.{SongInfo}
use netdj.Songlist.{Songlist}
use netdj.SongXml.{song_xml}
use netdj.Xml.{Dom, text_element}

-- `mLogCount` and `mEntryQueue`
pub record LogService (X : Type 0) : Type 0 where
  pub log_count : ℕ
  pub queue : List X

abbrev pub new_log_service : {X : Type 0} → LogService X
new_log_service = record { log_count = 0; queue = [] }

class_text : EntryClass → Text
class_text crit = codes "critical"
class_text warn = codes "warning"
class_text info = codes "info"

-- What a slot hands to `Emit`.
pub record Entry (X : Type 0) : Type 0 where
  pub content : X
  pub level : ℕ
  pub class : EntryClass

module _ {X : Type 0} (dom : Dom X) where
  -- The attributes that `Emit` sets; the id is the new count.
  unfoldable pub stamped : ℕ → Text → Entry X → X
  unfolding class_text
  stamped id time e =
      dom.set_attribute
        (dom.set_number
          (dom.set_attribute (dom.set_number e.content (codes "id") id) (codes "timestamp") time)
          (codes "level") e.level)
        (codes "class") (class_text e.class)

  -- Emit(aEntry, aLevel, aClass) where no other thread interrupts it, with whether the owner's thread calls it: what it emits
  unfoldable pub emit : Bool → Text → Entry X → LogService X → LogService X × List (X × ℕ)
  emit in_owner time e s =
      let id = (s.log_count + 1) % 2 ^ 32 in
      let entry = stamped id time e in
      if in_owner
      then (record s { log_count = id }, (entry, e.level) ∷ [])
      else (record { log_count = id; queue = s.queue ++ entry ∷ [] }, [])

  unfoldable pub emit_all : (X → ℕ) → List X → List (X × ℕ)
  emit_all level_of [] = []
  emit_all level_of (x ∷ rest) = (x, level_of x) ∷ emit_all level_of rest

  -- event(aEvent) where no other thread interrupts it, with whether it is the user event; the level is read back from the entry.
  unfoldable pub event : (X → ℕ) → Bool → LogService X → (LogService X × List (X × ℕ)) × Bool
  unfolding emit_all
  event level_of is_user s =
      if is_user
      then ((record s { queue = [] }, emit_all level_of s.queue), true)
      else ((s, []), false)

  -- CreateEntry(aEntry, aName)
  create_entry : Option Text → Text → X
  create_entry sender name =
      dom.set_attribute
        (dom.set_attribute (dom.element (codes "entry")) (codes "sender")
          (elim sender [ none ↦ codes "(none)" | some n ↦ n ]))
        (codes "name") name

  -- SimpleEntry(aLevel, aName, aClass)
  simple_entry : Option Text → ℕ → Text → EntryClass → Entry X
  unfolding create_entry
  simple_entry sender level name class = record {
    content = create_entry sender name;
    level = level;
    class = class;
  }

  -- an entry with the user's name in it
  user_entry : Option Text → Text → Text → X
  unfolding create_entry
  user_entry sender name username =
      dom.append_child (create_entry sender name) (text_element dom (codes "user") username)

  pub log_song_playing : (Text → SongInfo) → Option Text → Song → Songlist → Entry X
  unfolding create_entry
  log_song_playing tags sender song col =
      let playing =
        dom.set_attribute (song_xml dom tags song) (codes "collection") col.identifier in
      record {
        content = dom.append_child (create_entry sender (codes "SongPlaying")) playing;
        level = 10;
        class = info;
      }

  pub log_quit : Option Text → Text → Entry X
  unfolding user_entry
  log_quit sender username = record {
    content = user_entry sender (codes "Shutdown") username;
    level = 0;
    class = crit;
  }

  pub log_skip : Option Text → Text → Entry X
  unfolding user_entry
  log_skip sender username = record {
    content = user_entry sender (codes "Skip") username;
    level = 20;
    class = info;
  }

  pub log_client_new : Option Text → Entry X
  unfolding simple_entry
  log_client_new sender = simple_entry sender 100 (codes "ClientNew") info

  pub log_client_close : Option Text → Entry X
  unfolding simple_entry
  log_client_close sender = simple_entry sender 100 (codes "ClientClose") info

  pub log_player_start : Option Text → Entry X
  unfolding simple_entry
  log_player_start sender = simple_entry sender 30 (codes "PlayerStart") info

  pub log_player_stop : Option Text → Entry X
  unfolding simple_entry
  log_player_stop sender = simple_entry sender 30 (codes "PlayerStop") crit

  pub log_message : Option Text → Text → ℕ → EntryClass → Entry X
  unfolding create_entry
  log_message sender msg level class = record {
    content = dom.append_child (create_entry sender (codes "Message")) (dom.text_node msg);
    level = level;
    class = class;
  }

  -- FileLogger's NewLogEntry(aEntry, aLevel), on what was written to the file
  unfoldable pub log_to_file : ℕ → Text → X × ℕ → Text
  log_to_file file_level written (entry, level) =
      if ltb file_level level then written else written ++ dom.to_text entry
