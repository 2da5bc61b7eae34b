-- ===== src/Download/Transfer/Progress.antt =====
-- DownloadManager: the counters of the content phase, over any course of its signals.
use native.Mathlib.Nat.{div-le_of_le-mul}
use mediaupdater.Base.{
  ℕ, suc, ◌+◌, ◌≤◌, ◌<◌, ◌≡◌, subst, String, Bool, true, false, Option, none, some, List, [], ◌∷◌,
  arith, Option-cases, inl, inr,
}
use mediaupdater.Base.Int.{ℤ, ◌+ℤ◌, ◌-ℤ◌, +ℤ_chain, zero-+ℤ}
use mediaupdater.Base.Lists.{length}
use mediaupdater.Qt.{Qt}
use mediaupdater.Station.{Station}
use mediaupdater.Content.{ContentInfo}
use mediaupdater.Download.{Downloads}
use mediaupdater.Download.Phases.{begin_download}
use mediaupdater.Download.Transfer.{
  percent, download_finished, download_progress, save_downloaded_file, reply_error,
}

module _ (Q : Qt) (st : Station) where
  -- One report of progress: the bytes of all files grow as those of the current one do.
  bytes-download_progress :
      (cb tb : ℤ) (d d' : Downloads Q)
      → d.revision ≡ false
      → download_progress Q st cb tb d ≡ some d'
      → (d'.last_bytes ≡ cb)
        × (d'.current_bytes ≡ d.current_bytes +ℤ (cb -ℤ d.last_bytes))
        × (d'.revision ≡ false)
  unfolding download_progress
  bytes-download_progress cb tb d d' content r = ground arith

  -- The reports of one file, in order.
  abbrev pub progress_all : List (ℤ × ℤ) → Downloads Q → Option (Downloads Q)
  progress_all [] d = some d
  progress_all ((cb, tb) ∷ events) d = elim (download_progress Q st cb tb d) [
    | none ↦ none
    | some d' ↦ progress_all events d'
  ]

  bytes-progress_all :
      (events : List (ℤ × ℤ)) (d d' : Downloads Q)
      → d.revision ≡ false
      → progress_all events d ≡ some d'
      → d'.current_bytes +ℤ d.last_bytes ≡ d.current_bytes +ℤ d'.last_bytes
  bytes-progress_all [] d d' content r = ground (arith)
  bytes-progress_all ((cb, tb) ∷ events) d d' content r =
      elim (Option-cases (download_progress Q st cb tb d)) [
        | inl e ↦ absurd (ground arith)
        | inr (d'', e) ↦
            let (last, current, still) = bytes-download_progress cb tb d d'' content e in
            let rest = bytes-progress_all events d'' d' still (ground arith) in
            +ℤ_chain d.current_bytes d.last_bytes d''.current_bytes cb d'.current_bytes
              d'.last_bytes current
              (subst (λ t. d'.current_bytes +ℤ t ≡ d''.current_bytes +ℤ d'.last_bytes) last rest)
      ]

  percent_bound : (done all : ℕ) → done ≤ all → 0 < all → percent Q st done all ≤ 100
  unfolding percent
  percent_bound done all h p = div-le_of_le-mul all (omega arith)

  -- However the progress of a file of the content phase is reported, with its content there,
  -- the bytes received over all files grow by what was last reported of this one.
  pub begin_download_bytes :
      (events : List (ℤ × ℤ)) (info : ContentInfo) (infos : List ContentInfo) (d d' : Downloads Q)
      → d.revision ≡ false
      → progress_all events (begin_download Q st info infos d) ≡ some d'
      → d'.current_bytes ≡ d.current_bytes +ℤ d'.last_bytes
  unfolding begin_download
  begin_download_bytes events info infos d d' content r =
      zero-+ℤ d'.current_bytes d.current_bytes d'.last_bytes
        (ground (arith, bytes-progress_all events (begin_download Q st info infos d) d'))

  -- The signals of the content phase, as the network delivers them: a download begins while no
  -- reply is there, and a reply finishes once.
  pub data Step (d : Downloads Q) : Downloads Q → Type 0 where
    began :
        (info : ContentInfo) (infos : List ContentInfo)
        → d.reply ≡ false
        → d.content_files ≡ info ∷ infos
        → Step d (begin_download Q st info infos d)
    arrived :
        (bytes : String) {d' : Downloads Q}
        → save_downloaded_file Q st bytes d ≡ some d'
        → Step d d'
    progressed :
        (cb tb : ℤ) {d' : Downloads Q} → download_progress Q st cb tb d ≡ some d' → Step d d'
    failed : Step d (reply_error Q st d)
    finished :
        (no_error : Bool) {d' : Downloads Q}
        → d.reply ≡ true
        → download_finished Q st no_error d ≡ some d'
        → Step d d'

  pub data Steps (d : Downloads Q) : Downloads Q → Type 0 where
    none_yet : Steps d d
    then_one : {e f : Downloads Q} → Steps d e → Step e f → Steps d f

  abbrev in_flight : Bool → ℕ
  in_flight true = 1
  in_flight false = 0

  -- Files done, waiting and in flight are no more than the files of the phase.
  abbrev pub Counted : Downloads Q → Type 0
  Counted d =
      d.current_numbers + length d.content_files + in_flight d.reply ≤ d.content_files_numbers

  pub Step-Counted : {d d' : Downloads Q} → Step d d' → Counted d → Counted d'
  unfolding begin_download download_progress download_finished save_downloaded_file reply_error
  Step-Counted (began info infos idle next) h = ground arith
  Step-Counted (arrived bytes r) h = ground arith
  Step-Counted (progressed cb tb r) h = ground arith
  Step-Counted failed h = h
  Step-Counted (finished no_error busy r) h = ground arith

  -- So after any course of the signals.
  pub Steps-Counted : {d d' : Downloads Q} → Steps d d' → Counted d → Counted d'
  Steps-Counted none_yet h = h
  Steps-Counted (then_one steps step) h = Step-Counted step (Steps-Counted steps h)

  -- Where at first the files done, waiting and in flight are no more than those of the phase,
  -- the percentage that the end of a download reports, after any course of the signals, is at
  -- most 100.
  pub Steps-percent :
      {d d' : Downloads Q}
      → Counted d
      → Steps d d'
      → d'.reply ≡ true
      → percent Q st (suc d'.current_numbers) d'.content_files_numbers ≤ 100
  Steps-percent {d} {d'} h steps busy =
      let kept = Steps-Counted steps h in
      percent_bound (suc d'.current_numbers) d'.content_files_numbers (ground arith) (ground arith)
