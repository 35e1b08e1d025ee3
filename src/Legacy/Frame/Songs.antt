-- ===== src/Legacy/Frame/Songs.antt =====
-- No round of the player changes the configuration, the users or the lock of the web.
use netdj.Prelude.{
  ℕ, refl, Bool, false, not, ◌&&◌, ◌||◌, Option, none, some, List, [], ◌∷◌, text_eq, is_empty,
  Bool-cases, inl, inr,
}
use netdj.Legacy.Directory.{Run, returns, Outside, get_song}
use netdj.Legacy.File.{File, exists}
use netdj.Legacy.Player.{Block, delete_it, first_song, stream, take_song, play, no_song, round}
use netdj.Legacy.CurrentSong.{get, set}
use netdj.Legacy.Program.{Program}
use netdj.Legacy.Frame.{
  Frame, Frame-refl, Frame-trans, AllResults, bind-results, returns-results, any_result,
}

found_or :
    (p q : Program) (i : ℕ) (o : Option File) (rest : Run (Program × Option (ℕ × File)))
    → Frame p q
    → AllResults (λ r. Frame p r.0) rest
    → AllResults (λ r. Frame p r.0) (elim o [ some f ↦ returns (q, some (i, f)) | none ↦ rest ])
found_or p q i none rest h k = k
found_or p q i (some f) rest h k = returns-results _ _ h

first_song-Frame :
    (o : Outside) (rand : ℕ) (p : Program) → AllResults (λ r. Frame p r.0) (first_song o rand p)
unfolding first_song
first_song-Frame o rand p = bind-results _ _ _ _ (any_result (get_song o rand p.request)) (λ r u.
    found_or p _ 0 r.1 _ (record { same_config = refl; same_users = refl; same_lock = refl })
      (bind-results _ _ _ _ (any_result (get_song o rand p.cache)) (λ c u.
        found_or p _ 1 c.1 _ (record { same_config = refl; same_users = refl; same_lock = refl })
          (bind-results _ _ _ _ (any_result (get_song o rand p.share)) (λ s u.
            found_or p _ 2 s.1 _
              (record { same_config = refl; same_users = refl; same_lock = refl })
              (returns-results _ _
                (record { same_config = refl; same_users = refl; same_lock = refl })))))))

stream-Frame : (bs : List Block) (p : Program) → Frame p (stream bs p).1
unfolding stream
stream-Frame [] p = Frame-refl p
stream-Frame (b ∷ rest) p =
    let now : Program = record p {
      stop_player = p.stop_player || b.stop_set;
      next_song = p.next_song || b.next_set;
    } in
    let here : Frame p now = record { same_config = refl; same_users = refl; same_lock = refl } in
    let later = Frame-trans here (stream-Frame rest now) in
    elim (Bool-cases (now.stop_player || now.next_song)) [
      | inl e ↦ rw e here
      | inr e ↦ elim (Bool-cases (is_empty b.bytes || not b.sent)) [
        | inl k ↦ rw (e, k) here
        | inr k ↦ rw (e, k) later
      ]
    ]

play-Frame :
    (o : Outside) (logging : Bool) (blocks : Option (List Block)) (i : ℕ) (f : File) (p : Program)
    → Frame p (play o logging blocks i f p).program
unfolding play
play-Frame o logging none i f p = record { same_config = refl; same_users = refl; same_lock = refl }
play-Frame o logging (some bs) i f p =
    let q : Program = record p { current = (set f (delete_it i p) p.current).0 } in
    let here : Frame p q = record { same_config = refl; same_users = refl; same_lock = refl } in
    Frame-trans here (stream-Frame bs q)

take_song-Frame :
    (o : Outside) (logging : Bool) (blocks : Option (List Block)) (i : ℕ) (f : File) (p : Program)
    → Frame p (take_song o logging blocks i f p).program
unfolding take_song
take_song-Frame o logging blocks i f p =
    let found = exists o.disk f in
    elim (Bool-cases (found.1 && not (text_eq found.0.name (get p.current).name))) [
      | inl e ↦ rw e (play-Frame o logging blocks i found.0 p)
      | inr e ↦ rw e (Frame-refl p)
    ]

after_first :
    (o : Outside) (logging : Bool) (blocks : Option (List Block)) (p : Program)
    (r : Program × Option (ℕ × File))
    → Frame p r.0
    → AllResults
        (λ s. Frame p s.program)
        (elim r.1 [
          | none ↦ returns (no_song o r.0)
          | some (i, f) ↦ returns (take_song o logging blocks i f r.0)
        ])
unfolding no_song
after_first o logging blocks p (q, none) h =
    returns-results _ _
      (Frame-trans h (record { same_config = refl; same_users = refl; same_lock = refl }))
after_first o logging blocks p (q, some (i, f)) h =
    returns-results _ _ (Frame-trans h (take_song-Frame o logging blocks i f q))

pub round-Frame :
    (o : Outside) (rand : ℕ) (logging : Bool) (blocks : Option (List Block)) (p : Program)
    → AllResults (λ r. Frame p r.program) (round o rand logging blocks p)
unfolding round no_song
round-Frame o rand logging blocks p =
    let p' : Program = record p { next_song = false } in
    let here : Frame p p' = record { same_config = refl; same_users = refl; same_lock = refl } in
    bind-results _ _ _ _ (first_song-Frame o rand p')
      (λ r h. after_first o logging blocks p r (Frame-trans here h))
