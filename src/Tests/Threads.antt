-- ===== src/Tests/Threads.antt =====
-- The threads of the log service, the songs' information and the matches of regular expressions.
use netdj.Prelude.{
  ℕ, ◌+◌, ◌%◌, ◌^◌, ◌<◌, ◌≡◌, refl, ap, ◌⊎◌, Bool, true, Option, none, some, List, [], ◌∷◌, map,
  Text, codes, drop, arith,
}
use netdj.Log.{Entry, log_client_new, stamped}
use netdj.Log.Threads.{
  idle, raising, waiting, inside, posting, scanning, clearing, reads, writes, locks, appends,
  handles, ends, clears, World, Reach, here, next, moves, set,
}
use netdj.Log.Delivery.{run}
use netdj.Log.Threads.Alone.{service}
use netdj.Log.Threads.Schedule.{Turn, calls, handles_event, action_of, Timely, Does, Does-run}
use netdj.Log.Threads.Losses.{pending, handed, dropped, Trace}
use netdj.Log.Threads.Losses.Balance.{Trace-balance}
use netdj.Log.Threads.Losses.Steps.{number, number_emitted}
use netdj.Log.Threads.Mutex.{attends, Reach-event_to_come}
use netdj.Log.Threads.Races.{Reach-lost, Reach-skipped}
use netdj.Legacy.Http.Parse.{parse_headers}
use netdj.Legacy.Regex.{Found, RegExec, EndsWithin, exec_of}
use netdj.Legacy.Regex.Loops.{parse_headers-enough}
use netdj.Outcome.{returns}
use netdj.Song.{Song}
use netdj.SongInfo.File.{Tag, Details, song_info_file, tagged}
use netdj.SongXml.{song_xml}
use netdj.SongXml.Object.{show_all, show_all-song_info_file}
use netdj.Tests.Samples.{text_dom, new_song}

abbrev level : Text → ℕ
level x = 0

abbrev entry : Entry Text
entry = log_client_new text_dom none

-- A service in which no thread is, with an event that was posted and entries that are gone already.
abbrev quiet : World Text
quiet = record {
  shared = record {
    log_count = 7;
    mutex = none;
    queue = [];
    current = none;
    posted = 1;
    emitted = [];
  };
  pcs = λ i. idle;
}

-- A call by another thread, one by the owner's, the two events, and one more call.
abbrev turns : List (Turn Text)
turns =
    calls 1 (codes "t") entry
    ∷ calls 0 (codes "u") entry
    ∷ handles_event
    ∷ handles_event
    ∷ calls 2 (codes "v") entry
    ∷ []

turns-Timely : Timely 1 turns
unfolding Timely
turns-Timely = (omega arith, (omega arith, tt))

Does-run_example :
    Does text_dom level quiet
      (run text_dom level (map action_of turns) (service text_dom level quiet.shared))
Does-run_example = Does-run text_dom level turns quiet (λ k. refl, refl) turns-Timely

Reach-lost_example :
    (w' : World Text) × Reach text_dom level quiet w'
    × ((w'.pcs 0 ≡ idle) × (w'.pcs 1 ≡ idle))
    × (w'.shared.log_count ≡ 8 % 2 ^ 32)
    × (w'.shared.queue ≡ [])
    × (w'.shared.emitted ≡ [])
Reach-lost_example =
    Reach-lost text_dom level 1 (codes "t") entry quiet (λ h. absurd (omega arith)) refl refl refl
      (omega arith) refl

-- Two entries wait.
abbrev waited : World Text
waited = record quiet {
  shared = record quiet.shared { queue = codes "a" ∷ codes "b" ∷ []; current = some 1 };
}

Reach-skipped_example :
    (w' : World Text) × Reach text_dom level waited w'
    × ((w'.pcs 0 ≡ idle) × (w'.pcs 1 ≡ idle))
    × (w'.shared.log_count ≡ 8 % 2 ^ 32)
    × (w'.shared.queue ≡ [])
    × (w'.shared.emitted ≡ (codes "a", 0) ∷ [])
Reach-skipped_example =
    Reach-skipped text_dom level 1 (codes "t") entry waited (codes "a") (codes "b" ∷ [])
      (λ h. absurd (omega arith)) refl refl refl (omega arith) refl

abbrev stamp : Text
stamp = stamped text_dom 8 (codes "t") entry

-- Thread 1 on its way to where it has appended its entry and not yet posted its event.
abbrev counting : World Text
counting = record quiet { pcs = set 1 (raising (codes "t") entry 7) quiet.pcs }

abbrev counted : World Text
counted = record {
  shared = record quiet.shared { log_count = 8 };
  pcs = set 1 (waiting stamp entry.level) counting.pcs;
}

abbrev locked : World Text
locked = record {
  shared = record counted.shared { mutex = some 1 };
  pcs = set 1 (inside stamp entry.level) counted.pcs;
}

abbrev appended : World Text
appended = record {
  shared = record locked.shared { queue = stamp ∷ []; current = some 0 };
  pcs = set 1 posting locked.pcs;
}

to_locked : Reach text_dom level quiet locked
to_locked =
    next
      (next (next here (moves 1 refl (reads (codes "t") entry)))
        (moves 1 refl (writes (codes "t") entry 7)))
      (moves 1 refl (locks stamp entry.level refl))

to_appended : Reach text_dom level quiet appended
to_appended = next to_locked (moves 1 refl (appends stamp entry.level (λ h. absurd (omega arith))))

Reach-event_to_come_example :
    (0 < appended.shared.posted) ⊎ ((i : ℕ) × (attends (appended.pcs i) ≡ true))
Reach-event_to_come_example =
    Reach-event_to_come text_dom level quiet appended refl to_appended refl

-- The owner's thread is behind the loop over the empty queue when thread 1 appends its entry.
abbrev scanned : World Text
scanned = record {
  shared = record quiet.shared { posted = 0 };
  pcs = set 0 clearing (set 0 (scanning true) quiet.pcs);
}

abbrev reading : World Text
reading = record scanned { pcs = set 1 (raising (codes "t") entry 7) scanned.pcs }

abbrev written : World Text
written = record {
  shared = record scanned.shared { log_count = 8 };
  pcs = set 1 (waiting stamp entry.level) reading.pcs;
}

abbrev entered : World Text
entered = record {
  shared = record written.shared { mutex = some 1 };
  pcs = set 1 (inside stamp entry.level) written.pcs;
}

abbrev queued : World Text
queued = record {
  shared = record entered.shared { queue = stamp ∷ []; current = some 0 };
  pcs = set 1 posting entered.pcs;
}

abbrev cleared : World Text
cleared = record {
  shared = record queued.shared { queue = []; current = none };
  pcs = set 0 idle queued.pcs;
}

to_scanned : Trace text_dom level quiet [] [] scanned
unfolding handed dropped
to_scanned =
    Trace.next (Trace.next Trace.here 0 refl (handles refl (omega arith))) 0 refl (ends true refl)

to_entered : Trace text_dom level quiet [] [] entered
unfolding handed dropped
to_entered =
    Trace.next
      (Trace.next (Trace.next to_scanned 1 refl (reads (codes "t") entry)) 1 refl
        (writes (codes "t") entry 7))
      1 refl (locks stamp entry.level refl)

to_cleared : Trace text_dom level quiet (stamp ∷ []) (stamp ∷ []) cleared
unfolding handed dropped
to_cleared =
    Trace.next
      (Trace.next to_entered 1 refl (appends stamp entry.level (λ h. absurd (omega arith)))) 0 refl
      clears

abbrev any_entry : Text → Bool
any_entry x = true

Trace-balance_example :
    number_emitted text_dom level any_entry cleared.shared.emitted
      + number text_dom level any_entry
          (pending (cleared.pcs 0) cleared.shared.queue cleared.shared.current)
      + number text_dom level any_entry (stamp ∷ [])
    ≡ number text_dom level any_entry (stamp ∷ [])
Trace-balance_example =
    Trace-balance text_dom level any_entry quiet cleared (stamp ∷ []) (stamp ∷ []) refl refl
      (λ k. refl) to_cleared

abbrev plain_tag : Tag
plain_tag = record {
  album = [];
  title = codes "T";
  artist = codes "A";
  genre = [];
  track = 0;
  year = 0;
}

abbrev found : Details
found = record {
  is_readable = true;
  owner = codes "dj";
  size = 9;
  file_name = codes "a.mp3";
  tag = some plain_tag;
  length = some 3;
}

abbrev no_song : Details
no_song = record found { tag = none }

abbrev last_ones : ℕ → Text → Text
last_ones n s = drop 2 s

abbrev same : Text → Text
same s = s

abbrev a_song : Song
a_song = new_song (codes "a.mp3") 1

abbrev a_song_xml : Text
a_song_xml = song_xml text_dom (λ f. tagged last_ones same (codes "a.mp3") found plain_tag 3) a_song

-- The file is replaced by one that is no song.
show_all-song_info_file_example :
    show_all text_dom [] same last_ones same
      ((λ f. found) ∷ (λ f. no_song) ∷ [])
      (record { song = a_song; song_info = none })
    ≡ returns (a_song_xml ∷ a_song_xml ∷ [])
unfolding song_info_file
show_all-song_info_file_example =
    show_all-song_info_file text_dom [] same last_ones same (λ x. refl) (λ f. found)
      ((λ f. no_song) ∷ []) a_song (tagged last_ones same (codes "a.mp3") found plain_tag 3) refl

-- Matches the first character of any text, which is its only parenthesis.
abbrev first_char : RegExec
first_char reg [] = none
first_char reg (c ∷ s) = some (record { ends = 1; parts = some (0, 1) ∷ [] })

first_char-EndsWithin : EndsWithin first_char
first_char-EndsWithin reg [] found h = cc
first_char-EndsWithin reg (c ∷ s) found h = let e : 1 ≡ found.ends = ap ends_of h in omega arith
  where
    ends_of : Option Found → ℕ
    ends_of none = 0
    ends_of (some f) = f.ends

parse_headers-enough_example :
    parse_headers (exec_of first_char) (5 + 3) (codes "abc") 0 []
    ≡ parse_headers (exec_of first_char) 3 (codes "abc") 0 []
parse_headers-enough_example =
    parse_headers-enough first_char first_char-EndsWithin 5 (codes "abc") 0 []
