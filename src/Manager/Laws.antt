-- ===== src/Manager/Laws.antt =====
-- ContentManager: which entry of a file name is downloaded, and which contents stay.
use mediaupdater.Base.{
  ◌≡◌, refl, String, false, Option, none, some, List, [], ◌∷◌, arith, Option-cases, inl, inr,
  if◌then◌else◌, ◌==◌, string_eq,
}
use mediaupdater.Qt.{Qt}
use mediaupdater.LoginInfo.{LoginInfo}
use mediaupdater.Station.{Station}
use mediaupdater.Content.{ContentType, music, advert, revision, report, ContentInfo, Content}
use mediaupdater.Heap.{slot, set_slot, or_else}
use mediaupdater.Manager.{
  ContentManager, with_url, add_urls, generate_url_list, add_network_content, allocate,
  map_is_empty,
}
use mediaupdater.Manager.Files.{lookup, insert, lookup-insert}

-- The last entry of a list with this file name.
abbrev pub last_named : String → List ContentInfo → Option ContentInfo
last_named name [] = none
last_named name (info ∷ infos) =
    or_else (last_named name infos) (if info.file_name == name then some info else none)

abbrev pub with_url? : LoginInfo → Content → Option ContentInfo → Option ContentInfo
with_url? l c none = none
with_url? l c (some info) = some (with_url l c info)

-- Under each file name the last entry of the content is downloaded, whatever directory the others
-- have; a name that the content does not list keeps the entry that it had.
pub lookup-add_urls :
    (l : LoginInfo) (c : Content) (name : String) (infos : List ContentInfo)
    (files : List (String × ContentInfo))
    → lookup name (add_urls l c infos files)
      ≡ or_else (with_url? l c (last_named name infos)) (lookup name files)
unfolding add_urls
lookup-add_urls l c name [] files = refl
lookup-add_urls l c name (info ∷ infos) files = elim (Option-cases (last_named name infos)) [
  | inl e ↦ ground (
    arith,
    lookup-add_urls l c name infos (insert info.file_name (with_url l c info) files),
    lookup-insert info.file_name name (with_url l c info) files,
  )
  | inr (i, e) ↦
      ground
        (arith, lookup-add_urls l c name infos (insert info.file_name (with_url l c info) files))
]

module _ (Q : Qt) (st : Station) where
  content_map-generate_url_list :
      (c : Content) (m : ContentManager) → (generate_url_list c m).content_map ≡ m.content_map
  unfolding generate_url_list
  content_map-generate_url_list c m = ground arith

  -- Adding a content never replaces or drops one that is there.
  pub slot-add_network_content :
      (t u : ContentType) (m : ContentManager) (w : Q.World) (c : Content)
      → slot u m.content_map ≡ some c
      → slot u (add_network_content Q st t (m, w)).0.content_map ≡ some c
  unfolding add_network_content allocate slot set_slot map_is_empty
  slot-add_network_content music u m w c h =
      let ((m', w'), c') = allocate Q st music false (m, w) in
      ground (arith, content_map-generate_url_list c' m')
  slot-add_network_content advert u m w c h =
      let ((m', w'), c') = allocate Q st advert false (m, w) in
      ground (arith, content_map-generate_url_list c' m')
  slot-add_network_content revision u m w c h =
      let ((m', w'), c') = allocate Q st revision false (m, w) in
      ground (arith, content_map-generate_url_list c' m')
  slot-add_network_content report u m w c h =
      let ((m', w'), c') = allocate Q st report false (m, w) in
      ground (arith, content_map-generate_url_list c' m')
