-- ===== src/Download/Course/Walk.antt =====
-- The walk on the FTP server keeps the pointers of the download manager good.
use mediaupdater.Base.{
  ◌≡◌, refl, true, false, ◌&&◌, ◌||◌, some, List, [], ◌∷◌, ◌++◌, arith, if_both, ◌==◌,
  if◌then◌else◌, Bool-cases, inl, inr,
}
use mediaupdater.Base.Int.{ℤ, pos, int_eq}
use mediaupdater.Base.Lists.{all, all-append, List-cases}
use mediaupdater.Base.Text.{is_empty}
use mediaupdater.Qt.{Qt}
use mediaupdater.Content.{ContentInfo}
use mediaupdater.Heap.{deref}
use mediaupdater.Heap.Live.{is_live}
use mediaupdater.Manager.{content_files, set_total_size, append_size}
use mediaupdater.Manager.Live.{IsSound}
use mediaupdater.Download.{
  Downloads, Action, emit, list, login, close, send, start_timer, new_ftp, connect_to_host,
  post_next_download,
}
use mediaupdater.Download.Ftp.{
  Finished, UrlInfo, next_of, next_ftp_file, is_harmless, is_logged_in, add_file, list_info,
  connect_to_ftp, get_total_size, ftp_command_finished, on_ftp_timeout,
}
use mediaupdater.Download.Course.{
  last_action, asks, walks, posted, Valid, is_list, is_login, is_post,
}

pub last_action-append :
    (before : List Action) (a : Action) → last_action (before ++ (a ∷ [])) ≡ some a
last_action-append [] a = refl
last_action-append (b ∷ []) a = refl
last_action-append (b ∷ c ∷ rest) a = last_action-append (c ∷ rest) a

module _ (Q : Qt) where
  -- A state whose last action asks for nothing needs only what its reply needs.
  pub idle-Valid :
      (d : Downloads Q)
      → IsSound d.manager
      → walks Q d ≡ false
      → (posted Q d || d.reply ≡ true → all (is_live d.manager.content_map) d.content_files ≡ true)
      → (d.reply ≡ true → is_live d.manager.content_map d.current ≡ true)
      → Valid Q d
  idle-Valid d s w q c = record {
    sound = s;
    waiting = λ h. ground arith;
    queued = λ h. ground (arith, q);
    current = λ h. ground (arith, c);
  }

  -- The walk over files that are good, with good files found so far.
  next_of-Valid :
      (files : List ContentInfo) (d : Downloads Q)
      → IsSound d.manager
      → all (is_live d.manager.content_map) files ≡ true
      → all (is_live d.manager.content_map) d.content_files ≡ true
      → (d.reply ≡ true → is_live d.manager.content_map d.current ≡ true)
      → Valid Q (next_of Q files d)
  unfolding next_of
  next_of-Valid [] d s f c r =
      let e = last_action-append (d.trace ++ (close ∷ [])) post_next_download in
      idle-Valid (next_of Q [] d) s (rw e refl) (λ _. c) r
  next_of-Valid (info ∷ infos) d s f c r =
      let d' = record d { current = info; ftp_content_files = infos } in
      let here : is_live d.manager.content_map info ≡ true = ground arith in
      let later : all (is_live d.manager.content_map) infos ≡ true = ground arith in
      if_both (Valid Q) (is_empty info.server_path) (next_of Q infos d')
        (emit Q (list info.server_path) (record d' { ftp_timed_out = false; ftp_timer = true }))
        (next_of-Valid infos d' s later c (λ _. here))
        (record { sound = s; waiting = λ _. later; queued = λ _. c; current = λ _. here })

  -- A state whose last action asks for nothing, over the same contents and files.
  pub emit-Valid :
      (a : Action) (d : Downloads Q)
      → is_list (some a) ≡ false
      → is_login (some a) ≡ false
      → is_post (some a) ≡ false
      → Valid Q d
      → Valid Q (emit Q a d)
  emit-Valid a d l o p v =
      let e = last_action-append d.trace a in
      idle-Valid (emit Q a d) v.sound (rw e (ground arith))
        (rw (e, p) (λ h. v.queued (ground arith))) (λ h. v.current (ground arith))

  pub list_info-Valid :
      (info : UrlInfo) (d : Downloads Q)
      → asks Q d ≡ true
      → Valid Q d
      → Valid Q (list_info Q info d)
  unfolding list_info next_ftp_file add_file append_size content_files deref
  list_info-Valid info d a v =
      let d' = record d { ftp_timer = false } in
      let w : walks Q d ≡ true = ground arith in
      let files = v.waiting w in
      let found = v.queued (ground arith) in
      let here = v.current (ground arith) in
      let same : Valid Q d' = record {
        sound = v.sound;
        waiting = v.waiting;
        queued = v.queued;
        current = v.current;
      } in
      let e = if info.is_valid_file then add_file Q info d' else d' in
      let sized : ContentInfo = (let i = d.current in record i { size = info.size }) in
      if_both (Valid Q) d.ftp_timed_out d' (next_ftp_file Q e) same (
        if_both (λ (e : Downloads Q). Valid Q (next_of Q e.ftp_content_files e)) info.is_valid_file
          (add_file Q info d') d'
          (next_of-Valid d.ftp_content_files (add_file Q info d')
            (record { typed = v.sound.typed; files_live = v.sound.files_live }) files
            (ground
              (arith, all-append (is_live d.manager.content_map) d.content_files (sized ∷ [])))
            (λ _. here))
          (next_of-Valid d.ftp_content_files d' v.sound files found (λ _. here)))

  pub ftp_command_finished-Valid :
      (f : Finished) (d : Downloads Q)
      → walks Q d ≡ true
      → Valid Q d
      → Valid Q (ftp_command_finished Q f d)
  unfolding ftp_command_finished next_ftp_file
  ftp_command_finished-Valid f d w v =
      let d' = record d { ftp_timer = false } in
      let same : Valid Q d' = record {
        sound = v.sound;
        waiting = v.waiting;
        queued = v.queued;
        current = v.current;
      } in
      let on : Valid Q (next_ftp_file Q d') =
        next_of-Valid d.ftp_content_files d' v.sound (v.waiting w) (v.queued (ground arith))
          (λ h. v.current (ground arith)) in
      let told = emit Q (send "{ftp_error}" f.error_string) d' in
      let stopped =
        emit-Valid start_timer told refl refl refl
          (emit-Valid (send "{ftp_error}" f.error_string) d' refl refl refl same) in
      if_both (Valid Q) d.ftp_timed_out d _ v (
        if_both (Valid Q) f.failed _ _
          (if_both (Valid Q) (is_harmless f.error) (next_ftp_file Q d') (emit Q start_timer told) on
            stopped)
          (if_both (Valid Q) (is_logged_in f.state && d.login_command == f.id) (next_ftp_file Q d')
            d on v))

  pub on_ftp_timeout-Valid : (d : Downloads Q) → Valid Q d → Valid Q (on_ftp_timeout Q d)
  unfolding on_ftp_timeout
  on_ftp_timeout-Valid d v =
      let late = record d { ftp_timed_out = true; ftp_timer = false } in
      let told = emit Q (send "{ftp_timeout}" "FTP-сервер не отвечает") late in
      let same : Valid Q late = record {
        sound = v.sound;
        waiting = v.waiting;
        queued = v.queued;
        current = v.current;
      } in
      emit-Valid start_timer (emit Q close told) refl refl refl (
        emit-Valid close told refl refl refl
          (emit-Valid (send "{ftp_timeout}" "FTP-сервер не отвечает") late refl refl refl same))

  -- A phase begins with good files to ask for, none found yet, and no reply.
  pub record Begins (d : Downloads Q) : Type 0 where
    pub sound : IsSound d.manager
    pub to_ask : all (is_live d.manager.content_map) d.ftp_content_files ≡ true
    pub none_found : d.content_files ≡ []
    pub no_reply : d.reply ≡ false

  -- The walk waits for the server to answer, or the round is over.
  connected-Valid :
      (id : ℤ) (d : Downloads Q)
      → Begins d
      → let (d', opened) = connect_to_ftp Q id d in
        Valid Q (if opened then d' else emit Q start_timer d')
  unfolding connect_to_ftp
  connected-Valid id d b =
      let l = d.login_info in
      let refused = is_empty l.host || is_empty l.login || is_empty l.password in
      let found : all (is_live d.manager.content_map) d.content_files ≡ true =
        rw b.none_found refl in
      let asked =
        emit Q (connect_to_host l.host l.port)
          (record d { ftp_timed_out = false; ftp_timer = true; login_command = id }) in
      let e = last_action-append asked.trace (login l.login l.password) in
      let e' = last_action-append d.trace start_timer in
      elim (Bool-cases refused) [
        | inl c ↦
            rw (connect_to_ftp, c)
              (idle-Valid (emit Q start_timer d) b.sound (rw e' refl) (λ _. found)
                (λ h. ground (arith, b.no_reply)))
        | inr c ↦
            rw (connect_to_ftp, c)
              (record {
                sound = b.sound;
                waiting = λ _. b.to_ask;
                queued = λ _. found;
                current = λ h. ground (arith, b.no_reply, e);
              })
      ]

  pub get_total_size-Valid :
      (id : ℤ) (d : Downloads Q)
      → IsSound d.manager
      → d.content_files ≡ []
      → d.reply ≡ false
      → Valid Q (get_total_size Q id d)
  unfolding get_total_size content_files set_total_size
  get_total_size-Valid id d s c r =
      let files = content_files d.manager in
      let d' = emit Q new_ftp (record d { ftp_content_files = files }) in
      let e = last_action-append d'.trace post_next_download in
      let found : all (is_live d.manager.content_map) d.content_files ≡ true = rw c refl in
      let zeroed = record d' {
        total_bytes = pos 0;
        last_bytes = pos 0;
        current_bytes = pos 0;
        manager = set_total_size (pos 0) d'.manager;
      } in
      elim (List-cases files) [
        | inl n ↦
            rw (get_total_size, n)
              (idle-Valid (emit Q post_next_download d') s (rw e refl) (λ _. found)
                (λ h. ground (arith, r)))
        | inr (f, fs, n) ↦
            rw (get_total_size, n)
              (connected-Valid id zeroed (record {
                sound = record { typed = s.typed; files_live = s.files_live };
                to_ask = s.files_live;
                none_found = c;
                no_reply = r;
              }))
      ]
