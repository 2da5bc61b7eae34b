-- ===== src/Download/Course/Steps.antt =====
-- The start of a phase, the step to the next download and the end of the phase keep the pointers good.
use mediaupdater.Base.{
  ◌≡◌, refl, ap, subst, ◌∙◌, ◌<>◌, Bool, true, false, not, ◌&&◌, some, List, [], ◌∷◌, arith,
  if_both, if_true, if_false, if◌then◌else◌, Bool-cases, inl, inr,
}
use mediaupdater.Base.Int.{ℤ, pos}
use mediaupdater.Base.Lists.{all, length, List-cases}
use mediaupdater.Qt.{Qt}
use mediaupdater.LoginInfo.{LoginInfo}
use mediaupdater.Station.{Station, rev_local, rev_server, set_rev_local}
use mediaupdater.Content.{ContentType, music, advert, revision, ContentInfo}
use mediaupdater.Check.Files.{check_all_files}
use mediaupdater.Heap.{ContentMap}
use mediaupdater.Check.Files.Total.{check_all_files_total}
use mediaupdater.Heap.Live.{is_live}
use mediaupdater.Manager
use mediaupdater.Manager.{
  content_files, new_manager, full_clear, clear, add_network_content, sync_content,
}
use mediaupdater.Manager.Live.{
  IsSound, add_network_content-IsSound, clear-IsSound, sync_content-IsSound,
}
use mediaupdater.Download.{
  Downloads, emit, send, get, start_timer, set_login_info, check_connection_settings,
}
use mediaupdater.Download.Phases.{
  add_content, start, start_content, take_revision, check_revision, finish, announce,
  begin_download, next_download_of, next_download,
}
use mediaupdater.Download.Course.{posted, Valid}
use mediaupdater.Download.Course.Walk.{last_action-append, idle-Valid, get_total_size-Valid}
use mediaupdater.Download.Course.Reply.{Returns}

module _ (Q : Qt) (st : Station) where
  add_content-IsSound :
      (t : ContentType) (d : Downloads Q)
      → IsSound d.manager
      → IsSound (add_content Q st t d).manager
  unfolding add_content
  add_content-IsSound t d s = add_network_content-IsSound Q st t d.manager d.world s

  full_clear-IsSound : (m : Manager.ContentManager) → IsSound (full_clear m)
  unfolding full_clear content_files clear
  full_clear-IsSound m =
      let s = clear-IsSound m in record { typed = s.typed; files_live = s.files_live }

  pub start-Valid :
      (l : LoginInfo) (id : ℤ) (d : Downloads Q)
      → d.reply ≡ false
      → Valid Q (start Q st id (set_login_info Q l d))
  unfolding start set_login_info check_connection_settings full_clear add_content content_files
  start-Valid l id d r =
      let told =
        emit Q (send "{update_progress}" "")
          (check_connection_settings Q st (set_login_info Q l d)) in
      let cleared = record told { manager = full_clear told.manager } in
      let d' = add_content Q st revision cleared in
      get_total_size-Valid Q id (record d' { revision = true; content_files = [] })
        (add_content-IsSound revision cleared (full_clear-IsSound told.manager)) refl r

  start_content-Valid :
      (id : ℤ) (d : Downloads Q) → d.reply ≡ false → Valid Q (start_content Q st id d)
  unfolding start_content add_content
  start_content-Valid id d r =
      let cleared = record d { manager = clear d.manager } in
      let adverts = add_content Q st advert cleared in
      let d' = add_content Q st music adverts in
      get_total_size-Valid Q id
        (record d' { revision = false; content_files = []; current_numbers = 0 })
        (add_content-IsSound music adverts
          (add_content-IsSound advert cleared (clear-IsSound d.manager)))
        refl r

  finish-Valid :
      (d : Downloads Q) → d.content_files ≡ [] → d.reply ≡ false → Valid Q (finish Q st d)
  unfolding finish
  finish-Valid d c r =
      let finished = emit Q (send "{update_finished}" "Загрузка файлов завершена") d in
      let (m, w) = sync_content Q st (d.manager, d.world) in
      let waiting = emit Q start_timer (record finished { manager = m; world = w }) in
      let told = emit Q (send "{update_success}" "Обновление файлов завершено") waiting in
      let last =
        last_action-append told.trace
          (send "{revision}" (Q.number (rev_local Q st d.login_info.box_id w))) in
      idle-Valid Q (finish Q st d) (sync_content-IsSound Q st d.manager d.world) (rw last refl)
        (λ _. rw c refl) (λ h. ground (arith, r))

  begun-Valid :
      (info : ContentInfo) (infos : List ContentInfo) (d : Downloads Q)
      → IsSound d.manager
      → all (is_live d.manager.content_map) (info ∷ infos) ≡ true
      → Valid Q (
          emit Q (get info.url) (record d {
            content_files = infos;
            current = info;
            last_bytes = pos 0;
            download_timed_out = false;
            full_download_bytes = false;
            reply = true;
            download_timer = true;
          }))
  begun-Valid info infos d s c =
      let last = last_action-append d.trace (get info.url) in
      let here : is_live d.manager.content_map info ≡ true = ground arith in
      let later : all (is_live d.manager.content_map) infos ≡ true = ground arith in
      record {
        sound = s;
        waiting = λ h. ground (arith, last);
        queued = λ _. later;
        current = λ _. here;
      }

  pub begin_download-Valid :
      (info : ContentInfo) (infos : List ContentInfo) (d : Downloads Q)
      → IsSound d.manager
      → all (is_live d.manager.content_map) (info ∷ infos) ≡ true
      → Valid Q (begin_download Q st info infos d)
  unfolding begin_download announce
  begin_download-Valid info infos d s c =
      let told =
        emit Q
          (send "{download_info}" (
            ("Files left: " <> Q.number (pos (length d.content_files)))
            <> (" Current file:" <> info.file_name)))
          d in
      if_both
        (λ (e : Downloads Q). Valid Q (
          emit Q (get info.url) (record e {
            content_files = infos;
            current = info;
            last_bytes = pos 0;
            download_timed_out = false;
            full_download_bytes = false;
            reply = true;
            download_timer = true;
          })))
        d.revision d told (begun-Valid info infos d s c) (begun-Valid info infos told s c)

  -- What the end of the content phase gives where the check of the files comes to an answer.
  phase_finished_at :
      (id : ℤ) (d : Downloads Q) (contents : ContentMap) (w : Q.World) (passed : Bool)
      → d.content_files ≡ []
      → d.revision ≡ false
      → check_all_files Q st d.login_info.box_id
          (content_files d.manager)
          (d.manager.content_map, d.world)
        ≡ some ((contents, w), passed)
      → let m = d.manager in
        next_download Q st id d
        ≡ some (
            finish Q st (record d {
              manager = record m { content_map = contents };
              world =
                  if passed && check_revision Q st d.login_info.box_id w
                  then set_rev_local Q st
                      (rev_server Q st d.login_info.box_id w)
                      d.login_info.box_id
                      w
                  else w;
            }))
  unfolding next_download take_revision
  phase_finished_at id d contents w passed e r c =
      ap (λ l. next_download_of Q st id l d) e
      ∙ if_false d.revision _ _ r
      ∙ rw (take_revision, c) refl

  -- With no file left in the content phase, the phase is finished in some state of the same queue.
  pub phase_finishes :
      (id : ℤ) (d : Downloads Q)
      → IsSound d.manager
      → d.content_files ≡ []
      → d.revision ≡ false
      → (d' : Downloads Q) × (next_download Q st id d ≡ some (finish Q st d'))
        × (d'.content_files ≡ [])
        × (d'.reply ≡ d.reply)
  phase_finishes id d s e n =
      let ((contents, w), c) =
        check_all_files_total Q st d.login_info.box_id (content_files d.manager)
          d.manager.content_map d.world s.typed s.files_live in
      (_, phase_finished_at id d contents w _ e n c, e, refl)

  pub next_download-Returns :
      (id : ℤ) (d : Downloads Q)
      → Valid Q d
      → posted Q d && not d.reply ≡ true
      → Returns Q (next_download Q st id d)
  unfolding next_download
  next_download-Returns id d v h =
      let idle : d.reply ≡ false = ground arith in
      elim (List-cases d.content_files) [
        | inr (info, infos, e) ↦ (
          begin_download Q st info infos d,
          ap (λ l. next_download_of Q st id l d) e,
          begin_download-Valid info infos d v.sound (
              subst (λ l. all (is_live d.manager.content_map) l ≡ true) e
                (v.queued (ground arith))),
        )
        | inl e ↦ elim (Bool-cases d.revision) [
          | inl y ↦ (
            start_content Q st id d,
            ap (λ l. next_download_of Q st id l d) e ∙ if_true d.revision _ _ y,
            start_content-Valid id d idle,
          )
          | inr n ↦
              (let (d', at, none_left, same) = phase_finishes id d v.sound e n in
                (finish Q st d', at, finish-Valid d' none_left (same ∙ idle)))
        ]
      ]
