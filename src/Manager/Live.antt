-- ===== src/Manager/Live.antt =====
-- ContentManager: the files to download point to contents that are there.
use mediaupdater.Base.{
  suc, Option-cases, if_both, ◌≡◌, refl, String, Bool, true, false, none, List, [], ◌∷◌, arith,
  Bool-cases, inl, inr, string_eq,
}
use mediaupdater.Base.Lists.{all}
use mediaupdater.Base.Text.{is_empty}
use mediaupdater.Qt.{Qt}
use mediaupdater.LoginInfo.{LoginInfo}
use mediaupdater.Station.{Station}
use mediaupdater.Content.{ContentType, music, advert, revision, report, ContentInfo, Content}
use mediaupdater.Content.Owner.{points_to}
use mediaupdater.Content.Build.{new_content}
use mediaupdater.Content.Build.Owner.{new_content-IsAt}
use mediaupdater.Content.Excess.{sync}
use mediaupdater.Heap.{ContentMap, slot, set_slot, no_slots, deref}
use mediaupdater.Heap.Live.{
  IsTyped, is_live, is_live-set_slot, is_live_new, set_slot-IsTyped, put_back-IsTyped,
}
use mediaupdater.Manager.{
  ContentManager, with_url, add_urls, generate_url_list, add_network_content, allocate, refuses,
  map_is_empty, content_files, clear, set_local_content, sync_slot, sync_content,
}
use mediaupdater.Manager.Files.{insert, values}

module _ {A : Type 0} (p : A → Bool) where
  all-values-insert :
      (k : String) (v : A) (d : List (String × A))
      → p v ≡ true
      → all p (values d) ≡ true
      → all p (values (insert k v d)) ≡ true
  unfolding values insert
  all-values-insert k v [] h g = ground arith
  all-values-insert k v ((j, u) ∷ d) h g = ground (arith, all-values-insert k v d)

-- What holds of the entries of a content, and does not look at their URLs, holds of the files.
all-values-add_urls :
    (p : ContentInfo → Bool) (l : LoginInfo) (c : Content) (infos : List ContentInfo)
    (files : List (String × ContentInfo))
    → ((info : ContentInfo) → p (with_url l c info) ≡ p info)
    → all p infos ≡ true
    → all p (values files) ≡ true
    → all p (values (add_urls l c infos files)) ≡ true
unfolding add_urls
all-values-add_urls p l c [] files u h g = g
all-values-add_urls p l c (info ∷ infos) files u h g =
    all-values-add_urls p l c infos (insert info.file_name (with_url l c info) files) u
      (ground arith)
      (all-values-insert p info.file_name (with_url l c info) files (ground (arith, u info)) g)

is_live-with_url :
    (m : ContentMap) (l : LoginInfo) (c : Content) (info : ContentInfo)
    → is_live m (with_url l c info) ≡ is_live m info
unfolding deref with_url
is_live-with_url m l c info = refl

-- Each content stands under its own type, and the pointer of every file can be followed.
pub record IsSound (m : ContentManager) : Type 0 where
  pub typed : IsTyped m.content_map
  pub files_live : all (is_live m.content_map) (content_files m) ≡ true

all_mono :
    {A : Type 0} (p q : A → Bool) (xs : List A)
    → ((x : A) → p x ≡ true → q x ≡ true)
    → all p xs ≡ true
    → all q xs ≡ true
all_mono p q [] h g = refl
all_mono p q (x ∷ xs) h g = ground (arith, h x, all_mono p q xs h)

slot_of_refuses :
    (Q : Qt) (st : Station) (t : ContentType) (m : ContentMap)
    → refuses Q st t m ≡ false
    → slot t m ≡ none
unfolding refuses slot map_is_empty
slot_of_refuses Q st music m h = ground arith
slot_of_refuses Q st advert m h = ground arith
slot_of_refuses Q st revision m h = ground arith
slot_of_refuses Q st report m h = ground arith

module _ (m : ContentMap) where
  all_live-add_urls :
      (l : LoginInfo) (c : Content) (files : List (String × ContentInfo))
      → all (is_live m) c.source_list ≡ true
      → all (is_live m) (values files) ≡ true
      → all (is_live m) (values (add_urls l c c.source_list files)) ≡ true
  all_live-add_urls l c files =
      all-values-add_urls (is_live m) l c c.source_list files (is_live-with_url m l c)

generate_url_list-IsSound :
    (c : Content) (m : ContentManager)
    → IsSound m
    → all (is_live m.content_map) c.source_list ≡ true
    → IsSound (generate_url_list c m)
unfolding generate_url_list content_files
generate_url_list-IsSound c m s h = if_both IsSound (is_empty c.source_dir) _ _ s (record {
  typed = s.typed;
  files_live = all_live-add_urls m.content_map m.login_info c m.content_files h s.files_live;
})

pub clear-IsSound : (m : ContentManager) → IsSound (clear m)
unfolding clear content_files no_slots values
clear-IsSound m = record { typed = (tt, tt, tt, tt); files_live = refl }

module _ (Q : Qt) (st : Station) where
  -- Adding a content keeps the manager sound.
  pub add_network_content-IsSound :
      (t : ContentType) (m : ContentManager) (w : Q.World)
      → IsSound m
      → IsSound (add_network_content Q st t (m, w)).0
  unfolding add_network_content allocate content_files
  add_network_content-IsSound t m w s = elim (Bool-cases (refuses Q st t m.content_map)) [
    | inl e ↦ rw (add_network_content, e) s
    | inr e ↦
        (let (c, w') = new_content Q st m.next_address t m.login_info.box_id false w in
          let at = new_content-IsAt Q st m.next_address t m.login_info.box_id false w in
          let free = slot_of_refuses Q st t m.content_map e in
          let m' = set_slot t c m.content_map in
          let grown : IsSound (record m { content_map = m'; next_address = suc m.next_address }) =
            record {
              typed = set_slot-IsTyped t c m.content_map at.type_is s.typed;
              files_live =
                  all_mono (is_live m.content_map) (is_live m') (values m.content_files)
                    (λ i. is_live-set_slot t c m.content_map i free) s.files_live;
            } in
          rw (add_network_content, e)
            (generate_url_list-IsSound c
              (record m { content_map = m'; next_address = suc m.next_address }) grown
              (all_mono (points_to m.next_address) (is_live m') c.source_list
                (λ i h. is_live_new t c m.content_map i free (ground (arith, at.address_is)))
                at.entries_are)))
  ]

  allocate-IsTyped :
      (t : ContentType) (local : Bool) (m : ContentManager) (w : Q.World)
      → IsTyped m.content_map
      → IsTyped (allocate Q st t local (m, w)).0.0.content_map
  unfolding allocate
  allocate-IsTyped t local m w h =
      let r = new_content Q st m.next_address t m.login_info.box_id local w in
      set_slot-IsTyped t r.0 m.content_map
        (new_content-IsAt Q st m.next_address t m.login_info.box_id local w).type_is h

  sync_slot-IsTyped :
      (t : ContentType) (s : (ContentMap × Q.World) × Bool)
      → IsTyped s.0.0
      → IsTyped (sync_slot Q st t s).0.0
  unfolding sync_slot
  sync_slot-IsTyped t ((m, w), restart) h = elim (Option-cases (slot t m)) [
    | inl e ↦ rw (sync_slot, e) h
    | inr (c, e) ↦ rw (sync_slot, e) (put_back-IsTyped (sync Q st (c, w)).0.0 m h)
  ]

  local-IsTyped :
      (m : ContentManager) (w : Q.World) → IsTyped (set_local_content Q st (m, w)).0.content_map
  unfolding set_local_content clear no_slots
  local-IsTyped m w =
      let s = (allocate Q st revision true (clear m, w)).0 in
      let s' = (allocate Q st music true s).0 in
      allocate-IsTyped advert true s'.0 s'.1 (
        allocate-IsTyped music true s.0 s.1
          (allocate-IsTyped revision true (clear m) w (tt, tt, tt, tt)))

  local_files :
      (m : ContentManager) (w : Q.World) → (set_local_content Q st (m, w)).0.content_files ≡ []
  unfolding set_local_content clear allocate
  local_files m w = refl

  -- Whatever the manager held, once the local contents are synchronised it is sound, with no file
  -- to download.
  pub sync_content-IsSound :
      (m : ContentManager) (w : Q.World) → IsSound (sync_content Q st (m, w)).0
  unfolding sync_content content_files values
  sync_content-IsSound m w =
      let (m', w') = set_local_content Q st (m, w) in
      let music_done = sync_slot Q st music ((m'.content_map, w'), false) in
      let advert_done = sync_slot Q st advert music_done in
      let revision_done = sync_slot Q st revision advert_done in
      record {
        typed = sync_slot-IsTyped report revision_done (
            sync_slot-IsTyped revision advert_done (
              sync_slot-IsTyped advert music_done
                (sync_slot-IsTyped music ((m'.content_map, w'), false) (local-IsTyped m w))));
        files_live = rw (local_files m w) refl;
      }
