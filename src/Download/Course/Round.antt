-- ===== src/Download/Course/Round.antt =====
-- The revision phase comes to its end: as many transfers as there are tables, and then the content
-- phase, which goes on by itself.
use mediaupdater.Base.{
  ◌≡◌, refl, ap, ◌∙◌, Bool, true, false, some, List, arith, ◌||◌, ◌⊎◌, inl, inr, if_true, if_both,
}
use mediaupdater.Base.Text.{is_empty}
use mediaupdater.Base.Int.{ℤ, pos}
use mediaupdater.Base.Lists.{length, List-cases}
use mediaupdater.Qt.{Qt}
use mediaupdater.Station.{Station}
use mediaupdater.Manager
use mediaupdater.Download.{
  Downloads, emit, new_ftp, start_timer, post_next_download, login, connect_to_host,
}
use mediaupdater.Download.Ftp.{get_total_size, connect_to_ftp}
use mediaupdater.Download.Phases.{next_download, next_download_of, start_content}
use mediaupdater.Download.Course.{next, posted, walks, last_action}
use mediaupdater.Download.Course.Await.{opened_or_waits}
use mediaupdater.Download.Course.Walk.{last_action-append}
use mediaupdater.Download.Course.Safety.{Course, Course-Valid, in_order}
use mediaupdater.Download.Course.Phase.{Posted, arrives, steps_on, rounds, rounds_end}

module _ (Q : Qt) where
  -- The last action waits for the next round, or an answer of the server or a posted step will come.
  abbrev pub GoesOn : Downloads Q → Type 0
  GoesOn d = (last_action d.trace ≡ some start_timer) ⊎ (walks Q d || posted Q d ≡ true)

  timer_GoesOn : (d : Downloads Q) → GoesOn (emit Q start_timer d)
  timer_GoesOn d = inl (last_action-append d.trace start_timer)

  post_GoesOn : (d : Downloads Q) → GoesOn (emit Q post_next_download d)
  post_GoesOn d = inr (ground (arith, last_action-append d.trace post_next_download))

  connect_to_ftp-GoesOn :
      (id : ℤ) (d : Downloads Q) → GoesOn (opened_or_waits Q (connect_to_ftp Q id d))
  unfolding connect_to_ftp
  connect_to_ftp-GoesOn id d =
      let l = d.login_info in
      let reached =
        emit Q (connect_to_host l.host l.port)
          (record d { ftp_timed_out = false; ftp_timer = true; login_command = id }) in
      if_both (λ r. GoesOn (opened_or_waits Q r))
        (is_empty l.host || is_empty l.login || is_empty l.password) (d, false)
        (emit Q (login l.login l.password) reached, true) (timer_GoesOn d)
        (inr (rw (last_action-append reached.trace (login l.login l.password)) refl))

  get_total_size-GoesOn : (id : ℤ) (d : Downloads Q) → GoesOn (get_total_size Q id d)
  unfolding get_total_size
  get_total_size-GoesOn id d =
      let files = Manager.content_files d.manager in
      let d' = emit Q new_ftp (record d { ftp_content_files = files }) in
      let zeroed = record d' {
        total_bytes = pos 0;
        last_bytes = pos 0;
        current_bytes = pos 0;
        manager = Manager.set_total_size (pos 0) d'.manager;
      } in
      elim (List-cases files) [
        | inl e ↦ rw (get_total_size, e) (post_GoesOn d')
        | inr (info, infos, e) ↦ rw (get_total_size, e) (connect_to_ftp-GoesOn id zeroed)
      ]

  pub get_total_size-revision :
      (id : ℤ) (d : Downloads Q) → (get_total_size Q id d).revision ≡ d.revision
  unfolding get_total_size connect_to_ftp
  get_total_size-revision id d = ground arith

module _ (Q : Qt) (st : Station) where
  -- In the revision phase, with the step to the next download posted, after a course in order: for as many times as tables are
  -- queued the posted step comes and begins a transfer, and its reply finishes, whatever it ends with,
  -- which posts a step again; the step that is posted then comes too, and starts the content phase.
  -- That asks the server, or posts its first step, or, without login data, waits for the next round.
  pub revision_phase_ends :
      (id : ℤ) (oks : List Bool) (d : Downloads Q) (c : Course Q st d)
      → in_order Q st c ≡ true
      → Posted Q st d
      → d.revision ≡ true
      → length oks ≡ length d.content_files
      → (d' : Downloads Q) × (d'' : Downloads Q) × (rounds Q st id oks d ≡ some d')
        × (arrives Q st (next id) d' ≡ some d'')
        × (d''.revision ≡ false)
        × GoesOn Q d''
  unfolding next_download next_download_of start_content
  revision_phase_ends id oks d c ordered p r n =
      let (d', eq, v, files, phase, p') =
        rounds_end Q st id oks d (Course-Valid Q st c ordered) p n in
      (
        d',
        start_content Q st id d',
        eq,
        steps_on Q st id d' (some (start_content Q st id d')) p'
            (ap (λ l. next_download_of Q st id l d') files ∙ if_true d'.revision _ _ (phase ∙ r)),
        get_total_size-revision Q id _,
        get_total_size-GoesOn Q id _,
      )
