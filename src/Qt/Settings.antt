-- ===== src/Qt/Settings.antt =====
-- QSettings under its documented behaviour: the value just stored, and the values left alone.
use mediaupdater.Base.{◌≡◌, ◌≢◌, String, Bool, true, arith, string_eq}
use mediaupdater.Base.Int.{ℤ}
use mediaupdater.Qt.{Qt, IsLawful, is_normal, bool_value, int_value, text_value}

module _ (Q : Qt) (L : IsLawful Q) (file key : String) where
  pub bool_value-set_setting :
      (default b : Bool) (w : Q.World)
      → bool_value Q file key default (Q.set_setting file key (Q.of_bool b) w) ≡ b
  bool_value-set_setting default b w =
      ground (arith, L.setting-set_setting file key (Q.of_bool b) w, L.to_bool-of_bool b)

  pub int_value-set_setting :
      (default n : ℤ) (w : Q.World)
      → int_value Q file key default (Q.set_setting file key (Q.of_int n) w) ≡ n
  int_value-set_setting default n w =
      ground (arith, L.setting-set_setting file key (Q.of_int n) w, L.to_int-of_int n)

  pub bool_value-set_setting_key :
      (v : Q.Variant) (file' key' : String) (default : Bool) (w : Q.World)
      → is_normal key ≡ true
      → is_normal key' ≡ true
      → key ≢ key'
      → bool_value Q file' key' default (Q.set_setting file key v w)
        ≡ bool_value Q file' key' default w
  bool_value-set_setting_key v file' key' default w n n' h =
      ground (arith, L.setting-set_setting_ne file key v file' key' w n n' h)

  pub int_value-set_setting_key :
      (v : Q.Variant) (file' key' : String) (default : ℤ) (w : Q.World)
      → is_normal key ≡ true
      → is_normal key' ≡ true
      → key ≢ key'
      → int_value Q file' key' default (Q.set_setting file key v w)
        ≡ int_value Q file' key' default w
  int_value-set_setting_key v file' key' default w n n' h =
      ground (arith, L.setting-set_setting_ne file key v file' key' w n n' h)

  pub text_value-set_setting :
      (t : String) (w : Q.World)
      → text_value Q file key (Q.set_setting file key (Q.of_text t) w) ≡ t
  text_value-set_setting t w =
      ground (arith, L.setting-set_setting file key (Q.of_text t) w, L.to_text-of_text t)

  pub text_value-set_setting_key :
      (v : Q.Variant) (file' key' : String) (w : Q.World)
      → is_normal key ≡ true
      → is_normal key' ≡ true
      → key ≢ key'
      → text_value Q file' key' (Q.set_setting file key v w) ≡ text_value Q file' key' w
  text_value-set_setting_key v file' key' w n n' h =
      ground (arith, L.setting-set_setting_ne file key v file' key' w n n' h)
