-- ===== src/Download/Ftp/Twice.antt =====
-- DownloadManager::listInfo, when QFtp gives more than one entry for a LIST.
use mediaupdater.Base.{
  ◌≡◌, refl, ap, sym, subst, ◌∙◌, false, List, [], ◌∷◌, ◌++◌, if◌then◌else◌, if_false, if_both,
}
use mediaupdater.Qt.{Qt}
use mediaupdater.Download.{Downloads, close, post_next_download}
use mediaupdater.Download.Ftp.{UrlInfo, list_info, next_of, next_ftp_file, add_file}

append_two :
    {A : Type 0} (xs : List A) (a b c d : A)
    → (((xs ++ (a ∷ [])) ++ (b ∷ [])) ++ (c ∷ [])) ++ (d ∷ []) ≡ xs ++ (a ∷ b ∷ c ∷ d ∷ [])
append_two [] a b c d = refl
append_two (x ∷ xs) a b c d = ap (λ l. x ∷ l) (append_two xs a b c d)

module _ (Q : Qt) where
  -- An entry in time, with no file left to ask for.
  abbrev Ends : Downloads Q → Downloads Q → Type 0
  Ends d d' =
      (d'.trace ≡ (d.trace ++ (close ∷ [])) ++ (post_next_download ∷ []))
      × (d'.ftp_content_files ≡ [])
      × (d'.ftp_timed_out ≡ d.ftp_timed_out)

  none_left-Ends :
      (d e : Downloads Q)
      → e.trace ≡ d.trace
      → e.ftp_content_files ≡ []
      → e.ftp_timed_out ≡ d.ftp_timed_out
      → Ends d (next_of Q e.ftp_content_files e)
  unfolding next_of
  none_left-Ends d e s n t =
      subst (λ l. Ends d (next_of Q l e)) (sym n)
        (ap (λ l. (l ++ (close ∷ [])) ++ (post_next_download ∷ [])) s, refl, t)

  entry-Ends :
      (info : UrlInfo) (d : Downloads Q)
      → d.ftp_content_files ≡ []
      → d.ftp_timed_out ≡ false
      → Ends d (list_info Q info d)
  unfolding list_info next_ftp_file add_file
  entry-Ends info d n t =
      let d' = record d { ftp_timer = false } in
      let e = if info.is_valid_file then add_file Q info d' else d' in
      subst (Ends d) (sym (if_false d.ftp_timed_out d' (next_ftp_file Q e) t)) (
        if_both (λ (e : Downloads Q). Ends d (next_of Q e.ftp_content_files e)) info.is_valid_file
          (add_file Q info d') d' (none_left-Ends d (add_file Q info d') refl n refl)
          (none_left-Ends d d' refl n refl))

  -- Where the last file was asked for, and its time is not out, two entries of QFtp one after the other
  -- close the connection twice and post the step to the next download twice, whatever they say.
  pub second_entry_posts :
      (first second : UrlInfo) (d : Downloads Q)
      → d.ftp_content_files ≡ []
      → d.ftp_timed_out ≡ false
      → (list_info Q second (list_info Q first d)).trace
        ≡ d.trace ++ (close ∷ post_next_download ∷ close ∷ post_next_download ∷ [])
  second_entry_posts first second d n t =
      let (one, n', t') = entry-Ends first d n t in
      let (two, _, _) = entry-Ends second (list_info Q first d) n' (t' ∙ t) in
      two
      ∙ (ap (λ l. (l ++ (close ∷ [])) ++ (post_next_download ∷ [])) one
          ∙ append_two d.trace close post_next_download close post_next_download)
