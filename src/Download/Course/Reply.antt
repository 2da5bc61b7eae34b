-- ===== src/Download/Course/Reply.antt =====
-- The signals of a reply can follow the pointer of the current file, and keep the others good.
use mediaupdater.Base.{
  ◌==◌, suc, ◌≡◌, refl, ◌∙◌, String, ◌<>◌, Bool, true, false, not, ◌&&◌, ◌||◌, Option, none, some,
  arith, if_both, if◌then◌else◌, Bool-cases, Option-cases, inl, inr,
}
use mediaupdater.Base.Int.{ℤ, pos, int_eq, ltb}
use mediaupdater.Base.Lists.{all}
use mediaupdater.Qt.{Qt}
use mediaupdater.Station.{Station}
use mediaupdater.Heap.{deref}
use mediaupdater.Heap.Live.{is_live}
use mediaupdater.Manager.Live.{IsSound}
use mediaupdater.Download.{Downloads, emit, send, abort, post_next_download}
use mediaupdater.Download.Transfer.{
  current_path, save_downloaded_file, set_marks, report_progress, download_finished, is_complete,
  count_bytes, with_current_size, download_progress, reply_error, on_download_timeout, percent,
}
use mediaupdater.Download.Course.{Valid}
use mediaupdater.Download.Course.Walk.{last_action-append, idle-Valid, emit-Valid}
use mediaupdater.Download.Course.Path.{over, current_path_total}

module _ (Q : Qt) where
  -- A handler that returns, in a state that meets what it has to.
  abbrev pub Returns : Option (Downloads Q) → Type 0
  Returns o = (d' : Downloads Q) × (o ≡ some d') × Valid Q d'

  with_current_size-Valid :
      (st : Station) (cb : ℤ) (d : Downloads Q) → Valid Q d → Valid Q (with_current_size Q st cb d)
  unfolding with_current_size deref
  with_current_size-Valid st cb d v = record {
    sound = v.sound;
    waiting = v.waiting;
    queued = v.queued;
    current = v.current;
  }

  -- The step to the next download is posted.
  posted-Valid :
      (d : Downloads Q)
      → IsSound d.manager
      → all (is_live d.manager.content_map) d.content_files ≡ true
      → d.reply ≡ false
      → Valid Q (emit Q post_next_download d)
  posted-Valid d s c r =
      let e = last_action-append d.trace post_next_download in
      idle-Valid Q (emit Q post_next_download d) s (rw e refl) (λ _. c) (λ h. ground (arith, r))

pub with_reply :
    {A : Type 0} (reply : Bool) (o : Option A) → reply ≡ true → (if not reply then none else o) ≡ o
with_reply reply o r = rw r refl

and_false : (b : Bool) → (b && false) ≡ false
and_false true = refl
and_false false = refl

-- What the handlers give where the path of the current file is found.
module _ (Q : Qt) (st : Station) (d d' : Downloads Q) (dir path : String) where
  pub finished_at :
      (no_error : Bool)
      → current_path Q st d ≡ some (d', dir, path)
      → d.reply ≡ true
      → download_finished Q st no_error d
        ≡ some (
            emit Q post_next_download (
              report_progress Q st (record d' {
                download_timer = false;
                world = set_marks Q st (Q.exists path d.world) no_error d d.world;
                reply = false;
              })))
  unfolding download_finished
  finished_at no_error e r =
      rw (download_finished, e, r, and_false (Q.exists path d.world && not d.download_timed_out))
        refl

  progressed_at :
      (cb tb : ℤ)
      → d.revision ≡ false
      → is_complete Q st cb tb ≡ true
      → current_path Q st (count_bytes Q st cb d) ≡ some (d', dir, path)
      → download_progress Q st cb tb d
        ≡ some (
            with_current_size Q st cb (record d' {
              full_download_bytes = Q.size path d.world == cb || d.full_download_bytes;
            }))
  unfolding download_progress
  progressed_at cb tb n y e = rw (download_progress, n, y, e) refl

module _ (Q : Qt) (st : Station) (d : Downloads Q) (v : Valid Q d) (r : d.reply ≡ true) where
  pub save_downloaded_file-Returns :
      (bytes : String) → Returns Q (save_downloaded_file Q st bytes d)
  unfolding save_downloaded_file
  save_downloaded_file-Returns bytes =
      let (m', dir, path, e, v') = current_path_total Q st d v r in
      let w = Q.mkpath dir d.world in
      let at = λ (w' : Q.World). record (over Q m' d) { download_timer = true; world = w' } in
      let good : (w' : Q.World) → Valid Q (at w') = λ w'. record {
        sound = v'.sound;
        waiting = v'.waiting;
        queued = v'.queued;
        current = v'.current;
      } in
      elim (Option-cases (Q.append_file path bytes w)) [
        | inl n ↦ (at w, rw (save_downloaded_file, e, n) refl, good w)
        | inr (w', n) ↦ (at w', rw (save_downloaded_file, e, n, r) refl, good w')
      ]

  pub download_progress-Returns : (cb tb : ℤ) → Returns Q (download_progress Q st cb tb d)
  unfolding download_progress count_bytes with_current_size deref
  download_progress-Returns cb tb =
      let timed = record d { download_timer = true } in
      let counted = count_bytes Q st cb d in
      let sized = with_current_size Q st cb in
      let kept = with_current_size-Valid Q st cb in
      let vc : Valid Q counted = record {
        sound = v.sound;
        waiting = v.waiting;
        queued = v.queued;
        current = v.current;
      } in
      let (m', dir, path, e, v') = current_path_total Q st counted vc r in
      let full : Bool = Q.size path d.world == cb || d.full_download_bytes in
      let whole = record (over Q m' counted) { full_download_bytes = full } in
      elim (Bool-cases d.revision) [
        | inl y ↦ (
          timed,
          rw (download_progress, y) refl,
          record { sound = v.sound; waiting = v.waiting; queued = v.queued; current = v.current },
        )
        | inr n ↦ elim (Bool-cases (is_complete Q st cb tb)) [
          | inl y ↦ (
            sized whole,
            progressed_at Q st d (over Q m' counted) dir path cb tb n y e,
            kept whole (record {
              sound = v'.sound;
              waiting = v'.waiting;
              queued = v'.queued;
              current = v'.current;
            }),
          )
          | inr f ↦ (sized counted, rw (download_progress, n, f) refl, kept counted vc)
        ]
      ]

  pub reply_error-Valid : Valid Q (reply_error Q st d)
  unfolding reply_error
  reply_error-Valid =
      emit-Valid Q (send "{download_error}" ("File:" <> d.current.file_name))
        (record d { download_timer = false }) refl refl refl
        (record { sound = v.sound; waiting = v.waiting; queued = v.queued; current = v.current })

  pub download_finished-Returns : (no_error : Bool) → Returns Q (download_finished Q st no_error d)
  unfolding download_finished report_progress
  download_finished-Returns no_error =
      let (m', dir, path, e, v') = current_path_total Q st d v r in
      let exists = Q.exists path d.world in
      let done = record (over Q m' d) {
        download_timer = false;
        world = set_marks Q st exists no_error d d.world;
        reply = false;
      } in
      let numbers = suc done.current_numbers in
      let told =
        emit Q
          (send "{process_update}"
            (Q.number (pos (percent Q st numbers done.content_files_numbers))))
          (record done { current_numbers = numbers }) in
      let found = v'.queued (ground arith) in
      (
        emit Q post_next_download (report_progress Q st done),
        finished_at Q st d (over Q m' d) dir path no_error e r,
        if_both (λ x. Valid Q (emit Q post_next_download x))
            (not d.revision && ltb 0 d.content_files_numbers) told done
            (posted-Valid Q told v'.sound found refl) (posted-Valid Q done v'.sound found refl),
      )

module _ (Q : Qt) (st : Station) where
  pub on_download_timeout-Returns :
      (bytes : String) (available : Bool) (d : Downloads Q)
      → Valid Q d
      → d.reply ≡ true
      → Returns Q (on_download_timeout Q st bytes available d)
  unfolding on_download_timeout
  on_download_timeout-Returns bytes available d v r =
      let idle = record d { download_timer = false } in
      let vi : Valid Q idle = record {
        sound = v.sound;
        waiting = v.waiting;
        queued = v.queued;
        current = v.current;
      } in
      let (saved, e, vs) = save_downloaded_file-Returns Q st idle vi r bytes in
      let warning = send "{download_timeout}" ("File:" <> d.current.file_name) in
      let told = emit Q warning idle in
      let late = record told { download_timed_out = true } in
      let vt : Valid Q told = emit-Valid Q warning idle refl refl refl vi in
      let vl : Valid Q late = record {
        sound = vt.sound;
        waiting = vt.waiting;
        queued = vt.queued;
        current = vt.current;
      } in
      elim (Bool-cases available) [
        | inl y ↦ (
          saved,
          rw (on_download_timeout, y)
              (with_reply d.reply (save_downloaded_file Q st bytes idle) r ∙ e),
          vs,
        )
        | inr n ↦ (
          emit Q abort late,
          rw (on_download_timeout, n) (with_reply d.reply (some (emit Q abort late)) r),
          emit-Valid Q abort late refl refl refl vl,
        )
      ]
