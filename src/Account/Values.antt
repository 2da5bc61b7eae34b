-- ===== src/Account/Values.antt =====
-- AccountManager: the numbers that an account's answer gives.
use mediaupdater.Base.{String}
use mediaupdater.Base.Int.{ℤ, negsuc}
use mediaupdater.Qt.{Qt}
use mediaupdater.Account.{Account, Codec, int_of}

-- The counts of organisations and of boxes are not looked up anywhere.
unfoldable pub count_select : String → ℤ
count_select table = negsuc 0

unfoldable pub count_orgs : ℤ
count_orgs = count_select "UsersOrgs"

unfoldable pub count_boxs : ℤ
count_boxs = count_select "UsersBoxs"

module _ (Q : Qt) (C : Codec) where
  unfoldable pub user_id : Account → ℤ
  user_id a = int_of Q C "id" a

  unfoldable pub is_active : Account → ℤ
  is_active a = int_of Q C "active" a

  unfoldable pub count_orgs_max : Account → ℤ
  count_orgs_max a = int_of Q C "orgsbox" a

  unfoldable pub count_boxs_max : Account → ℤ
  count_boxs_max a = int_of Q C "boxcount" a

  unfoldable pub error_id : Account → ℤ
  error_id a = int_of Q C "error_id" a
