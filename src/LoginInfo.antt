-- ===== src/LoginInfo.antt =====
-- updater/logininfo.h and logininfo.cpp: where and as whom to log in, and the two path prefixes.
use mediaupdater.Base.{String, Bool, not, ◌&&◌}
use mediaupdater.Base.Int.{ℤ, pos}
use mediaupdater.Base.Text.{is_empty, with_slash}

pub record LoginInfo : Type 0 where
  pub host : String
  pub login : String
  pub password : String
  pub box_id : String
  pub prefix : String
  pub scheme : String
  pub box_folder : String
  pub port : ℤ

-- The constructor with no argument leaves `mPort` unset: its value is the argument here.
unfoldable pub unset : ℤ → LoginInfo
unset port = record {
  host = "";
  login = "";
  password = "";
  box_id = "";
  prefix = "";
  scheme = "";
  box_folder = "";
  port = port;
}

unfoldable pub login_info : String → String → String → String → String → LoginInfo
login_info id host login pass prefix = record {
  host = host;
  login = login;
  password = pass;
  box_id = id;
  prefix = prefix;
  scheme = "ftp";
  box_folder = "mediabox";
  port = pos 21;
}

unfoldable pub set_port : ℤ → LoginInfo → LoginInfo
set_port port l = record l { port = port }

unfoldable pub prefix_slash : LoginInfo → String
prefix_slash l = with_slash l.prefix

unfoldable pub box_folder_slash : LoginInfo → String
box_folder_slash l = with_slash l.box_folder

unfoldable pub is_valid : LoginInfo → Bool
is_valid l =
    not (is_empty l.host)
    && not (is_empty l.login)
    && not (is_empty l.password)
    && not (is_empty l.box_id)
