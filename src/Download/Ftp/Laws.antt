-- ===== src/Download/Ftp/Laws.antt =====
-- DownloadManager: the walk over the files on the FTP server, and signals that come too late.
use mediaupdater.Base.{◌≡◌, refl, ap, true, false, List, [], ◌∷◌, ◌++◌, arith, ◌∙◌}
use mediaupdater.Base.Int.{ℤ}
use mediaupdater.Base.Lists.{length, append_assoc, append_nil}
use mediaupdater.Base.Text.{is_empty}
use mediaupdater.Qt.{Qt}
use mediaupdater.Content.{ContentInfo}
use mediaupdater.Download.{Downloads, Action, list, close, post_next_download, emit}
use mediaupdater.Download.Ftp.{
  UrlInfo, Finished, next_of, next_ftp_file, add_file, list_info, ftp_command_finished,
  on_ftp_timeout,
}

-- An answer of the server, to the list command or another.
pub data Signal : Type 0 where
  listed : UrlInfo → Signal
  command : Finished → Signal

module _ (Q : Qt) where
  abbrev pub signal : Signal → Downloads Q → Downloads Q
  signal (listed info) d = list_info Q info d
  signal (command f) d = ftp_command_finished Q f d

  abbrev pub signals : List Signal → Downloads Q → Downloads Q
  signals [] d = d
  signals (s ∷ ss) d = signals ss (signal s d)

  signal_late :
      (s : Signal) (d : Downloads Q)
      → d.ftp_timed_out ≡ true
      → signal s (record d { ftp_timer = false }) ≡ record d { ftp_timer = false }
  unfolding list_info ftp_command_finished
  signal_late (listed info) d h = ground arith
  signal_late (command f) d h = ground arith

  -- Once the server ran out of time, whatever it still answers changes nothing: the files found so
  -- far and those left to ask for stay, and nothing more is asked for.
  pub signals-on_ftp_timeout :
      (ss : List Signal) (d : Downloads Q) → signals ss (on_ftp_timeout Q d) ≡ on_ftp_timeout Q d
  unfolding on_ftp_timeout
  signals-on_ftp_timeout [] d = refl
  signals-on_ftp_timeout (s ∷ ss) d =
      ap (signals ss) (signal_late s (on_ftp_timeout Q d) refl) ∙ signals-on_ftp_timeout ss d

  -- The files of the walk with the sizes that the server gives, in order.
  abbrev pub sized : List ContentInfo → List ℤ → List ContentInfo
  sized (f ∷ fs) (n ∷ ns) = record f { size = n } ∷ sized fs ns
  sized _ _ = []

  abbrev pub answers : List ℤ → Downloads Q → Downloads Q
  answers [] d = d
  answers (n ∷ ns) d = answers ns (list_info Q (record { is_valid_file = true; size = n }) d)

  abbrev pub HavePaths : List ContentInfo → Type 0
  HavePaths [] = Unit {0}
  HavePaths (f ∷ fs) = (is_empty f.server_path ≡ false) × HavePaths fs

  -- The state in which a file is asked for, and that after its answer.
  abbrev asked : ContentInfo → List ContentInfo → Downloads Q → Downloads Q
  asked f fs d =
      emit Q (list f.server_path)
        (record d { current = f; ftp_content_files = fs; ftp_timed_out = false; ftp_timer = true })

  abbrev sized_by : ℤ → ContentInfo → List ContentInfo → Downloads Q → Downloads Q
  sized_by n f fs d =
      add_file Q (record { is_valid_file = true; size = n })
        (record (asked f fs d) { ftp_timer = false })

  next_of-asked :
      (f : ContentInfo) (fs : List ContentInfo) (d : Downloads Q)
      → is_empty f.server_path ≡ false
      → next_of Q (f ∷ fs) d ≡ asked f fs d
  unfolding next_of
  next_of-asked f fs d h = rw h

  list_info-asked :
      (n : ℤ) (f : ContentInfo) (fs : List ContentInfo) (d : Downloads Q)
      → list_info Q (record { is_valid_file = true; size = n }) (asked f fs d)
        ≡ next_of Q fs (sized_by n f fs d)
  unfolding list_info next_ftp_file
  list_info-asked n f fs d = refl

  -- If every file has a path and the server, before it runs out of time, answers with a size
  -- for each, then the walk finds them all, in order and with their sizes, leaves none, and
  -- goes on to the downloads.
  pub answers-next_of :
      (files : List ContentInfo) (ns : List ℤ) (d : Downloads Q)
      → HavePaths files
      → length ns ≡ length files
      → d.ftp_timed_out ≡ false
      → let d' = answers ns (next_of Q files d) in
        (d'.content_files ≡ d.content_files ++ sized files ns)
        × (d'.content_files_numbers ≡ length d'.content_files)
        × (d'.ftp_content_files ≡ [])
        × ((before : List Action) × (d'.trace ≡ before ++ (close ∷ post_next_download ∷ [])))
  unfolding next_of add_file
  answers-next_of [] [] d paths len live = (rw append_nil, refl, refl, (d.trace, rw append_assoc))
  answers-next_of [] (n ∷ ns) d paths len live = absurd (omega arith)
  answers-next_of (f ∷ fs) [] d paths len live = absurd (omega arith)
  answers-next_of (f ∷ fs) (n ∷ ns) d paths len live =
      let (found, numbers, left, before) =
        answers-next_of fs ns (sized_by n f fs d) paths.1 (omega arith) refl in
      let step =
        ap (answers (n ∷ ns)) (next_of-asked f fs d paths.0)
        ∙ ap (answers ns) (list_info-asked n f fs d) in
      rw step (
        found ∙ append_assoc d.content_files (record f { size = n } ∷ []) (sized fs ns),
        numbers,
        left,
        before,
      )
