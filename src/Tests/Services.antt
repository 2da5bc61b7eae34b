-- ===== src/Tests/Services.antt =====
-- The account, the logs, the settings and the round of the service on concrete inputs.
use mediaupdater.Base.{◌+◌, ◌≤◌, ◌≡◌, refl, ◌⊎◌, inl, List, [], ◌∷◌, arith, string_eq}
use mediaupdater.Base.Int.{int_eq}
use mediaupdater.Base.Lists.{length}
use mediaupdater.Qt.Memory.{memory, memory-IsLawful, find}
use mediaupdater.Account.{
  Codec, IsSound, Account, no_error, new_account, save_cache, try_load_cache,
}
use mediaupdater.Account.Laws.{try_load_cache-save_cache, try_load_cache_same}
use mediaupdater.Logs.{LogFile, deleted_logs, drop}
use mediaupdater.Logs.Laws.{deleted_logs_keeps_ten, deleted_logs_any_age}
use mediaupdater.Tests.{partial}

-- A codec that leaves texts alone, and reads any answer as one object.
abbrev plain : Codec
plain = record {
  encrypt = λ s. s;
  decrypt = λ s. s;
  parse = λ s. inl (record { array = []; object = ("login", s) ∷ [] });
  file = "/s/account.dat";
}

plain-IsSound : IsSound plain
plain-IsSound = record { decrypt-encrypt = λ s. refl }

abbrev someone : Account
someone = new_account no_error

try_load_cache-save_cache_example :
    try_load_cache memory plain someone (save_cache memory plain "data" (someone, partial)).1
    ≡ "data"
unfolding new_account
try_load_cache-save_cache_example =
    try_load_cache-save_cache memory memory-IsLawful plain plain-IsSound "data" someone someone
      partial refl

try_load_cache_same_example :
    let (a', w') = save_cache memory plain "data" (someone, partial) in
    try_load_cache memory plain a' w' ≡ ""
unfolding find
try_load_cache_same_example =
    try_load_cache_same memory memory-IsLawful plain plain-IsSound "data" someone partial refl

abbrev log : LogFile
log = record { name = "log"; created = 5 }

abbrev logs : List LogFile
logs = log ∷ log ∷ log ∷ log ∷ log ∷ log ∷ log ∷ log ∷ log ∷ log ∷ log ∷ []

deleted_logs_any_age_example : deleted_logs (λ files. files) 9 30 logs ≡ log ∷ []
unfolding drop
deleted_logs_any_age_example =
    deleted_logs_any_age (λ files. files) 9 30 logs
      (
        omega arith,
        (
          omega arith,
          (
            omega arith,
            (
              omega arith,
              (
                omega arith,
                (
                  omega arith,
                  (omega arith, (omega arith, (omega arith, (omega arith, (omega arith, tt))))),
                ),
              ),
            ),
          ),
        ),
      )
      (omega arith) (omega arith)

deleted_logs_keeps_ten_example :
    (deleted_logs (λ files. files) 9 30 logs ≡ [])
    ⊎ (length (deleted_logs (λ files. files) 9 30 logs) + 10 ≤ length logs)
deleted_logs_keeps_ten_example = deleted_logs_keeps_ten (λ files. files) 9 30 logs refl
