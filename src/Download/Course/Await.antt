-- ===== src/Download/Course/Await.antt =====
-- What the download manager waits for between two of its handlers: an answer of the server, a posted
-- step, or a reply; and how often it asked for the next round.
use mediaupdater.Base.{
  ℕ, zero, suc, ◌+◌, ◌≡◌, refl, ap, ◌⊎◌, inl, inr, Bool, true, false, ◌&&◌, ◌||◌, some, List, [],
  ◌∷◌, ◌++◌, arith, if_both, ◌==◌, if◌then◌else◌,
}
use mediaupdater.Base.Int.{ℤ, pos, int_eq}
use mediaupdater.Base.Text.{is_empty}
use mediaupdater.Base.Lists.{List-cases}
use mediaupdater.Qt.{Qt}
use mediaupdater.Content.{ContentInfo}
use mediaupdater.Manager
use mediaupdater.Download.{
  Downloads, Action, emit, list, login, close, send, start_timer, post_next_download,
  connect_to_host, new_ftp,
}
use mediaupdater.Download.Ftp.{
  is_harmless, is_logged_in, Finished, UrlInfo, next_of, next_ftp_file, add_file, list_info,
  ftp_command_finished, on_ftp_timeout, connect_to_ftp, get_total_size,
}
use mediaupdater.Download.Course.{last_action, is_list, is_login, is_post, asks, walks}
use mediaupdater.Download.Course.Walk.{last_action-append}

abbrev pub count : Bool → ℕ
count true = 1
count false = 0

abbrev pub is_timer : Action → Bool
is_timer start_timer = true
is_timer _ = false

-- The signals `startTimer` so far.
pub timers : List Action → ℕ
timers [] = zero
timers (a ∷ rest) = count (is_timer a) + timers rest

pub timers-append :
    (before : List Action) (a : Action)
    → timers (before ++ (a ∷ [])) ≡ timers before + count (is_timer a)
unfolding timers
timers-append [] a = omega arith
timers-append (b ∷ rest) a = omega (arith, timers-append rest a)

-- Whether an answer of the server or a posted step is awaited after these actions.
abbrev pub waits_of : List Action → ℕ
waits_of trace =
    let last = last_action trace in count (is_login last || is_list last) + count (is_post last)

module _ (Q : Qt) where
  -- How many of the three are awaited.
  abbrev pub awaits : Downloads Q → ℕ
  awaits d = waits_of d.trace + count d.reply

  -- Something is awaited and no timer was started since there were so many, or nothing is and one was.
  abbrev pub Turns : ℕ → Downloads Q → Type 0
  Turns k d = ((awaits d ≡ 1) × (timers d.trace ≡ k)) ⊎ ((awaits d ≡ 0) × (timers d.trace ≡ suc k))

  pub asked-Turns :
      (a : Action) (k : ℕ) (d : Downloads Q)
      → is_timer a ≡ false
      → count (is_login (some a) || is_list (some a)) + count (is_post (some a)) + count d.reply ≡ 1
      → timers d.trace ≡ k
      → Turns k (emit Q a d)
  asked-Turns a k d t w e =
      inl (rw (last_action-append d.trace a) w, omega (arith, timers-append d.trace a, ap count t))

  pub kept-Turns :
      (d d' : Downloads Q)
      → awaits d ≡ 1
      → d'.trace ≡ d.trace
      → d'.reply ≡ d.reply
      → Turns (timers d.trace) d'
  kept-Turns d d' o t r = inl (omega (arith, ap waits_of t, ap count r), ap timers t)

  pub waits-Turns :
      (k : ℕ) (d : Downloads Q)
      → d.reply ≡ false
      → timers d.trace ≡ k
      → Turns k (emit Q start_timer d)
  waits-Turns k d r e = inr (
    rw (last_action-append d.trace start_timer, r) refl,
    omega (arith, timers-append d.trace start_timer),
  )

  pub told_timers :
      (a : Action) (k : ℕ) (d : Downloads Q)
      → is_timer a ≡ false
      → timers d.trace ≡ k
      → timers (emit Q a d).trace ≡ k
  told_timers a k d t e = omega (arith, timers-append d.trace a, ap count t)

  next_of-Turns :
      (files : List ContentInfo) (k : ℕ) (d : Downloads Q)
      → d.reply ≡ false
      → timers d.trace ≡ k
      → Turns k (next_of Q files d)
  unfolding next_of
  next_of-Turns [] k d r e =
      asked-Turns post_next_download k (emit Q close (record d { ftp_content_files = [] })) refl
        (rw r refl) (told_timers close k d refl e)
  next_of-Turns (info ∷ infos) k d r e =
      let d' = record d { current = info; ftp_content_files = infos } in
      if_both (Turns k) (is_empty info.server_path) (next_of Q infos d')
        (emit Q (list info.server_path) (record d' { ftp_timed_out = false; ftp_timer = true }))
        (next_of-Turns infos k d' r e)
        (asked-Turns (list info.server_path) k
          (record d' { ftp_timed_out = false; ftp_timer = true }) refl (rw r refl) e)

  -- While the server is asked there is no reply.
  walk_idle : (d : Downloads Q) → awaits d ≡ 1 → walks Q d ≡ true → d.reply ≡ false
  walk_idle d o w = ground arith

  pub list_info-Turns :
      (info : UrlInfo) (d : Downloads Q)
      → awaits d ≡ 1
      → asks Q d ≡ true
      → Turns (timers d.trace) (list_info Q info d)
  unfolding list_info next_ftp_file add_file
  list_info-Turns info d o a =
      let d' = record d { ftp_timer = false } in
      let idle = walk_idle d o (ground arith) in
      let on = λ (e : Downloads Q). next_ftp_file Q e in
      if_both (Turns (timers d.trace)) d.ftp_timed_out d'
        (next_ftp_file Q (if info.is_valid_file then add_file Q info d' else d')) (inl (o, refl))
        (if_both (λ (e : Downloads Q). Turns (timers d.trace) (next_ftp_file Q e))
          info.is_valid_file (add_file Q info d') d'
          (next_of-Turns d.ftp_content_files (timers d.trace) (add_file Q info d') idle refl)
          (next_of-Turns d.ftp_content_files (timers d.trace) d' idle refl))

  pub ftp_command_finished-Turns :
      (f : Finished) (d : Downloads Q)
      → awaits d ≡ 1
      → walks Q d ≡ true
      → Turns (timers d.trace) (ftp_command_finished Q f d)
  unfolding ftp_command_finished next_ftp_file
  ftp_command_finished-Turns f d o a =
      let k = timers d.trace in
      let d' = record d { ftp_timer = false } in
      let idle = walk_idle d o a in
      let same : Turns k d = inl (o, refl) in
      let on = next_of-Turns d.ftp_content_files k d' idle refl in
      let told = emit Q (send "{ftp_error}" f.error_string) d' in
      let over =
        waits-Turns k told idle (told_timers (send "{ftp_error}" f.error_string) k d' refl refl) in
      if_both (Turns k) d.ftp_timed_out d _ same (
        if_both (Turns k) f.failed _ _
          (if_both (Turns k) (is_harmless f.error) (next_ftp_file Q d') (emit Q start_timer told) on
            over)
          (if_both (Turns k) (is_logged_in f.state && d.login_command == f.id) (next_ftp_file Q d')
            d on same))

  pub on_ftp_timeout-Turns :
      (d : Downloads Q)
      → awaits d ≡ 1
      → walks Q d ≡ true
      → Turns (timers d.trace) (on_ftp_timeout Q d)
  unfolding on_ftp_timeout
  on_ftp_timeout-Turns d o a =
      let k = timers d.trace in
      let late = record d { ftp_timed_out = true; ftp_timer = false } in
      let told = emit Q (send "{ftp_timeout}" "FTP-сервер не отвечает") late in
      waits-Turns k (emit Q close told) (walk_idle d o a) (
        told_timers close k told refl
          (told_timers (send "{ftp_timeout}" "FTP-сервер не отвечает") k late refl refl))

  -- What comes of an attempt to connect.
  abbrev pub opened_or_waits : Downloads Q × Bool → Downloads Q
  opened_or_waits (d, opened) = if opened then d else emit Q start_timer d

  connect_to_ftp-Turns :
      (id : ℤ) (k : ℕ) (d : Downloads Q)
      → d.reply ≡ false
      → timers d.trace ≡ k
      → Turns k (opened_or_waits (connect_to_ftp Q id d))
  unfolding connect_to_ftp
  connect_to_ftp-Turns id k d r e =
      let l = d.login_info in
      let knocked = record d { ftp_timed_out = false; ftp_timer = true; login_command = id } in
      let reached = emit Q (connect_to_host l.host l.port) knocked in
      if_both (λ r. Turns k (opened_or_waits r))
        (is_empty l.host || is_empty l.login || is_empty l.password) (d, false)
        (emit Q (login l.login l.password) reached, true) (waits-Turns k d r e)
        (asked-Turns (login l.login l.password) k reached refl (rw r refl)
          (told_timers (connect_to_host l.host l.port) k knocked refl e))

  pub get_total_size-Turns :
      (id : ℤ) (k : ℕ) (d : Downloads Q)
      → d.reply ≡ false
      → timers d.trace ≡ k
      → Turns k (get_total_size Q id d)
  unfolding get_total_size
  get_total_size-Turns id k d r e =
      let files = Manager.content_files d.manager in
      let asked = record d { ftp_content_files = files } in
      let d' = emit Q new_ftp asked in
      let zeroed = record d' {
        total_bytes = pos 0;
        last_bytes = pos 0;
        current_bytes = pos 0;
        manager = Manager.set_total_size (pos 0) d'.manager;
      } in
      let same = told_timers new_ftp k asked refl e in
      elim (List-cases files) [
        | inl n ↦ rw (get_total_size, n) (asked-Turns post_next_download k d' refl (rw r refl) same)
        | inr (info, infos, n) ↦ rw (get_total_size, n) (connect_to_ftp-Turns id k zeroed r same)
      ]
