-- ===== src/Qt.antt =====
-- The Qt classes that the sources call, as an interface over an unknown state of the machine:
-- QFile, QFileInfo, QDir, QSettings, QVariant and the number formats of QString. No definition of
-- the sources is modelled here. `IsLawful` holds the documented behaviour that theorems assume.
pub mod Memory
pub mod Settings
use mediaupdater.Base.{
  ◌≡◌, ◌≢◌, String, Bool, true, false, not, ◌&&◌, Option, none, some, List, if◌then◌else◌, ◌==◌,
  string_eq,
}
use mediaupdater.Base.Int.{ℤ}
use mediaupdater.Base.Lists.{all}
use mediaupdater.Base.Text.{split, is_empty}

pub record Qt : Type 1 where
  pub World : Type 0
  pub Variant : Type 0
  -- QVariant
  pub of_bool : Bool → Variant
  pub to_bool : Variant → Bool
  pub of_int : ℤ → Variant
  pub to_int : Variant → ℤ
  pub of_text : String → Variant
  pub to_text : Variant → String
  -- QString::number, QString::toInt, QString::toLower, QString(QByteArray)
  pub number : ℤ → String
  pub parse_int : String → ℤ
  pub to_lower : String → String
  pub from_utf8 : String → String
  -- QString::toLocal8Bit, and the MD5 of a text in hexadecimal digits
  pub to_local : String → String
  pub md5_hex : String → String
  -- QByteArray::toBase64 and fromBase64
  pub to_base64 : String → String
  pub from_base64 : String → String
  -- QFileInfo::fileName, QDir::dirName, QDir::absoluteFilePath and absolutePath
  pub file_name : String → String
  pub dir_name : String → String
  pub absolute_file_path : String → String → String
  pub absolute_path : String → String
  -- QFile::exists, QFile::open(ReadOnly) with readAll, QFileInfo::size
  pub exists : String → World → Bool
  pub read : String → World → Option String
  pub size : String → World → ℤ
  -- QFile::remove, copy, rename; QFile::open(Append) with write, `none` where the file did not open
  pub remove_file : String → World → World × Bool
  pub copy_file : String → String → World → World × Bool
  pub rename_file : String → String → World → World × Bool
  pub append_file : String → String → World → Option World
  -- QDir::mkpath, removeRecursively, entryInfoList of files and of directories
  pub mkpath : String → World → World
  -- what mkpath returns
  pub can_make : String → World → Bool
  pub remove_recursively : String → World → World
  pub entry_files : String → World → List String
  pub entry_dirs : String → World → List String
  -- QSettings of one ini file: the full key under a group, value, setValue, remove
  pub full_key : String → String → String
  pub setting : String → String → World → Option Variant
  pub set_setting : String → String → Variant → World → World
  pub remove_setting : String → String → World → World
  -- QSettings::status() == NoError, isWritable
  pub status_ok : String → World → Bool
  pub is_writable : String → World → Bool

module _ (Q : Qt) where
  -- `value(key, default).toBool()`
  abbrev pub bool_value : String → String → Bool → Q.World → Bool
  bool_value file key default w = elim (Q.setting file key w) [
    | none ↦ default
    | some v ↦ Q.to_bool v
  ]

  -- `value(key, default).toInt()`
  abbrev pub int_value : String → String → ℤ → Q.World → ℤ
  int_value file key default w = elim (Q.setting file key w) [
    | none ↦ default
    | some v ↦ Q.to_int v
  ]

  -- `value(key).toString()`
  abbrev pub text_value : String → String → Q.World → String
  text_value file key w = elim (Q.setting file key w) [ none ↦ "" | some v ↦ Q.to_text v ]

-- QSettings drops the slashes at both ends of a key and those that follow one another: a key
-- without such slashes stands for itself.
abbrev pub is_normal : String → Bool
is_normal key = all (λ part. not (is_empty part)) (split b'/' key)

-- What the documentation of Qt says of these operations.
pub record IsLawful (Q : Qt) : Type 0 where
  pub to_bool-of_bool : (b : Bool) → Q.to_bool (Q.of_bool b) ≡ b
  pub to_int-of_int : (n : ℤ) → Q.to_int (Q.of_int n) ≡ n
  pub to_text-of_text : (t : String) → Q.to_text (Q.of_text t) ≡ t
  pub from_base64-to_base64 : (t : String) → Q.from_base64 (Q.to_base64 t) ≡ t
  -- A setting that was stored is read back, one that was removed is not, and a setting under another
  -- key keeps its value when one is stored.
  pub setting-set_setting :
      (file key : String) (v : Q.Variant) (w : Q.World)
      → Q.setting file key (Q.set_setting file key v w) ≡ some v
  pub setting-set_setting_ne :
      (file key : String) (v : Q.Variant) (file' key' : String) (w : Q.World)
      → is_normal key ≡ true
      → is_normal key' ≡ true
      → key ≢ key'
      → Q.setting file' key' (Q.set_setting file key v w) ≡ Q.setting file' key' w
  pub setting-remove_setting :
      (file key : String) (w : Q.World) → Q.setting file key (Q.remove_setting file key w) ≡ none
  -- Writing an ini file touches no other file.
  pub exists-set_setting :
      (file key : String) (v : Q.Variant) (path : String) (w : Q.World)
      → path ≢ file
      → Q.exists path (Q.set_setting file key v w) ≡ Q.exists path w
  pub exists-remove_setting :
      (file key path : String) (w : Q.World)
      → path ≢ file
      → Q.exists path (Q.remove_setting file key w) ≡ Q.exists path w
  -- A file that was removed is gone; the other files, and their settings, stay.
  pub exists-remove_file :
      (path : String) (w : Q.World)
      → (Q.remove_file path w).1 ≡ true
      → Q.exists path (Q.remove_file path w).0 ≡ false
  pub exists-remove_file_absent :
      (path : String) (w : Q.World)
      → Q.exists path w ≡ false
      → Q.exists path (Q.remove_file path w).0 ≡ false
  pub exists-remove_file_ne :
      (path other : String) (w : Q.World)
      → other ≢ path
      → Q.exists other (Q.remove_file path w).0 ≡ Q.exists other w
  pub setting-remove_file :
      (path file key : String) (w : Q.World)
      → file ≢ path
      → Q.setting file key (Q.remove_file path w).0 ≡ Q.setting file key w
  -- A rename that succeeds moves the text; a copy that succeeds leaves the source.
  pub read-rename_file :
      (from to : String) (w : Q.World)
      → (Q.rename_file from to w).1 ≡ true
      → Q.read to (Q.rename_file from to w).0 ≡ Q.read from w
  pub exists-rename_file :
      (from to : String) (w : Q.World)
      → (Q.rename_file from to w).1 ≡ true
      → Q.exists from (Q.rename_file from to w).0 ≡ false
  pub read-copy_file :
      (from to : String) (w : Q.World)
      → (Q.copy_file from to w).1 ≡ true
      → Q.read to (Q.copy_file from to w).0 ≡ Q.read from w
  -- Making directories changes no file and no setting, and removing a file no other file.
  pub read-mkpath : (dir path : String) (w : Q.World) → Q.read path (Q.mkpath dir w) ≡ Q.read path w
  pub exists-mkpath :
      (dir path : String) (w : Q.World) → Q.exists path (Q.mkpath dir w) ≡ Q.exists path w
  pub setting-mkpath :
      (dir file key : String) (w : Q.World)
      → Q.setting file key (Q.mkpath dir w) ≡ Q.setting file key w
  pub read-remove_file :
      (path other : String) (w : Q.World)
      → other ≢ path
      → Q.read other (Q.remove_file path w).0 ≡ Q.read other w
  pub read-remove_setting :
      (file key path : String) (w : Q.World)
      → path ≢ file
      → Q.read path (Q.remove_setting file key w) ≡ Q.read path w
