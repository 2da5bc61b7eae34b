-- ===== src/Qt/Memory.antt =====
-- A machine kept in memory: it shows that the assumptions on Qt can be met, and runs the tests.
use Prim.Native.Char.{code}
use Prim.Native.String.{len}
use mediaupdater.Base.{
  ◌≡◌, ◌≢◌, refl, ℕ, String, ◌<>◌, Bool, true, false, not, ◌&&◌, Option, none, some, List, [], ◌∷◌,
  if◌then◌else◌, ◌==◌, string_eq, nat_eq, eq_self, arith, ◌+◌, ◌*◌, ◌-◌, Option-cases, inl, inr,
}
use mediaupdater.Base.Int.{ℤ, pos, negsuc, int_eq}
use mediaupdater.Base.Text.{after_last}
use mediaupdater.Qt.{Qt, IsLawful}

pub data Value : Type 0 where
  bool : Bool → Value
  int : ℤ → Value
  text : String → Value

pub record Disk : Type 0 where
  pub files : List (String × String)
  pub conf : List ((String × String) × Value)
  pub listing : String → List String
  pub folders : String → List String

module _ {K V : Type 0} where
  unfoldable pub find : (K → Bool) → List (K × V) → Option V
  find p [] = none
  find p ((k, v) ∷ d) = if p k then some v else find p d

  unfoldable pub drop_key : (K → Bool) → List (K × V) → List (K × V)
  drop_key p [] = []
  drop_key p ((k, v) ∷ d) = let rest = drop_key p d in if p k then rest else (k, v) ∷ rest

  pub find-drop_key :
      (p q : K → Bool) (d : List (K × V))
      → ((k : K) → q k ≡ true → p k ≡ true)
      → find q (drop_key p d) ≡ none
  unfolding find drop_key
  find-drop_key p q [] h = refl
  find-drop_key p q ((k, v) ∷ d) h = ground (arith, find-drop_key p q d h, h k)

  pub find-drop_key_apart :
      (p q : K → Bool) (d : List (K × V))
      → ((k : K) → q k ≡ true → p k ≡ false)
      → find q (drop_key p d) ≡ find q d
  unfolding find drop_key
  find-drop_key_apart p q [] h = refl
  find-drop_key_apart p q ((k, v) ∷ d) h = ground (arith, find-drop_key_apart p q d h, h k)

abbrev is_path : String → String → Bool
is_path p q = q == p

abbrev is_setting : String → String → String × String → Bool
is_setting file key e = e.0 == file && e.1 == key

abbrev written : String → String → Disk → Disk
written path s w = record w { files = (path, s) ∷ drop_key (is_path path) w.files }

abbrev deleted : String → Disk → Disk
deleted path w = record w { files = drop_key (is_path path) w.files }

abbrev text_of : String → Disk → Option String
text_of path w = find (is_path path) w.files

abbrev is_there : String → Disk → Bool
is_there path w = elim (text_of path w) [ none ↦ false | some _ ↦ true ]

unfoldable pub move : Bool → String → String → Disk → Disk × Bool
unfolding drop_key find
move keep from to w = elim (text_of from w) [
  | none ↦ (w, false)
  | some s ↦ elim (text_of to w) [
    | some _ ↦ (w, false)
    | none ↦ (written to s (if keep then w else deleted from w), true)
  ]
]

abbrev value_bool : Value → Bool
value_bool (bool b) = b
value_bool (int n) = not (n == pos 0)
value_bool (text t) = t == "true"

abbrev value_int : Value → ℤ
value_int (bool b) = if b then pos 1 else pos 0
value_int (int n) = n
value_int (text t) = pos 0

abbrev value_text : Value → String
value_text (bool b) = if b then "true" else "false"
value_text (int n) = ""
value_text (text t) = t

unfoldable pub digits : String → ℕ → ℕ
digits String.[] n = n
digits (String.◌∷◌ c s) n = digits s (n * 10 + (code c - b'0'))

abbrev pub memory : Qt
memory = record {
  World = Disk;
  Variant = Value;
  of_bool = bool;
  to_bool = value_bool;
  of_int = int;
  to_int = value_int;
  of_text = text;
  to_text = value_text;
  number = λ n. elim n [ pos _ ↦ "1" | negsuc _ ↦ "-1" ];
  parse_int = λ s. if s == "-1" then negsuc 0 else pos (digits s 0);
  to_lower = λ s. s;
  from_utf8 = λ s. s;
  to_local = λ s. s;
  md5_hex = λ s. "md5-" <> s;
  to_base64 = λ s. s;
  from_base64 = λ s. s;
  file_name = after_last b'/';
  dir_name = after_last b'/';
  absolute_file_path = λ dir s. dir <> "/" <> s;
  absolute_path = λ s. s;
  exists = is_there;
  read = text_of;
  size = λ path w. elim (text_of path w) [ none ↦ pos 0 | some s ↦ pos (len s) ];
  remove_file = λ path w. (deleted path w, is_there path w);
  copy_file = move true;
  rename_file = move false;
  append_file =
      λ path s w. some (written path (elim (text_of path w) [ none ↦ s | some t ↦ t <> s ]) w);
  mkpath = λ _ w. w;
  can_make = λ _ _. true;
  remove_recursively = λ _ w. w;
  entry_files = λ dir w. w.listing dir;
  entry_dirs = λ dir w. w.folders dir;
  full_key = λ group key. if group == "" then key else group <> "/" <> key;
  setting = λ file key w. find (is_setting file key) w.conf;
  set_setting =
      λ file key v w. record w { conf = ((file, key), v) ∷ drop_key (is_setting file key) w.conf };
  remove_setting = λ file key w. record w { conf = drop_key (is_setting file key) w.conf };
  status_ok = λ _ _. true;
  is_writable = λ _ _. true;
}

find-written :
    (path other t : String) (w : Disk)
    → text_of other (written path t w) ≡ (if path == other then some t else text_of other w)
unfolding find
find-written path other t w =
    ground (arith, find-drop_key_apart (is_path path) (is_path other) w.files)

find-deleted_ne :
    (path other : String) (w : Disk)
    → other ≢ path
    → text_of other (deleted path w) ≡ text_of other w
find-deleted_ne path other w h =
    find-drop_key_apart (is_path path) (is_path other) w.files λ k e. ground arith

find-deleted : (path : String) (w : Disk) → text_of path (deleted path w) ≡ none
find-deleted path w = find-drop_key (is_path path) (is_path path) w.files (λ k e. e)

setting-dropped :
    (file key file' key' : String) (w : Disk)
    → find (is_setting file' key') (drop_key (is_setting file key) w.conf)
      ≡ (if file == file' && key == key' then none else find (is_setting file' key') w.conf)
setting-dropped file key file' key' w = ground (
  arith,
  find-drop_key (is_setting file key) (is_setting file' key') w.conf,
  find-drop_key_apart (is_setting file key) (is_setting file' key') w.conf,
)

setting-stored :
    (file key : String) (v : Value) (file' key' : String) (w : Disk)
    → find (is_setting file' key') (((file, key), v) ∷ drop_key (is_setting file key) w.conf)
      ≡ (if file == file' && key == key' then some v else find (is_setting file' key') w.conf)
unfolding find
setting-stored file key v file' key' w = ground (arith, setting-dropped file key file' key' w)

read-move :
    (keep : Bool) (from to : String) (w : Disk)
    → (move keep from to w).1 ≡ true
    → text_of to (move keep from to w).0 ≡ text_of from w
unfolding move
read-move true from to w = ground (arith, λ (t : String). find-written to to t w)
read-move false from to w = ground (arith, λ (t : String). find-written to to t (deleted from w))

exists-move :
    (from to : String) (w : Disk)
    → (move false from to w).1 ≡ true
    → is_there from (move false from to w).0 ≡ false
unfolding move
exists-move from to w = elim (Option-cases (text_of from w)) [
  | inl e ↦ ground arith
  | inr (t, e) ↦ ground (arith, find-deleted from w, find-written to from t (deleted from w))
]

pub memory-IsLawful : IsLawful memory
memory-IsLawful = record {
  to_bool-of_bool = λ b. refl;
  to_int-of_int = λ n. refl;
  to_text-of_text = λ t. refl;
  from_base64-to_base64 = λ t. refl;
  setting-set_setting = λ file key v w.
      ground (arith, setting-stored file key v file key w, eq_self file, eq_self key);
  setting-set_setting_ne =
      λ file key v file' key' w _ _ h. ground (arith, setting-stored file key v file' key' w);
  setting-remove_setting =
      λ file key w. ground (arith, setting-dropped file key file key w, eq_self file, eq_self key);
  exists-set_setting = λ _ _ _ _ _ _. refl;
  exists-remove_setting = λ _ _ _ _ _. refl;
  exists-remove_file = λ path w _. ground (arith, find-deleted path w);
  exists-remove_file_absent = λ path w _. ground (arith, find-deleted path w);
  exists-remove_file_ne = λ path other w h. ground (arith, find-deleted_ne path other w h);
  setting-remove_file = λ _ _ _ _ _. refl;
  read-rename_file = read-move false;
  exists-rename_file = exists-move;
  read-copy_file = read-move true;
  read-mkpath = λ _ _ _. refl;
  exists-mkpath = λ _ _ _. refl;
  setting-mkpath = λ _ _ _ _. refl;
  read-remove_file = find-deleted_ne;
  read-remove_setting = λ _ _ _ _ _. refl;
}
