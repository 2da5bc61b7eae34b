-- ===== src/Logs.antt =====
-- logger/loggerdelete.cpp: the daily deletion of log files, and logger/logger.cpp: the text of a line.
pub mod Laws
pub mod Line
use mediaupdater.Base.{
  ℕ, zero, suc, ◌+◌, ◌*◌, String, ◌<>◌, Bool, true, false, List, [], ◌∷◌, if◌then◌else◌,
}
use mediaupdater.Base.Int.{ltb, leb}
use mediaupdater.Base.Lists.{length}
use mediaupdater.Base.Text.{is_empty}

-- A log file: its name, and when it was made, in milliseconds.
pub record LogFile : Type 0 where
  pub name : String
  pub created : ℕ

abbrev pub day : ℕ
day = 86400000

-- `removeFirst`, so many times
unfoldable pub drop : ℕ → List LogFile → List LogFile
drop zero files = files
drop (suc n) [] = []
drop (suc n) (f ∷ files) = drop n files

-- The files made before a time.
unfoldable pub older : ℕ → List LogFile → List LogFile
older time [] = []
older time (f ∷ files) =
    let rest = older time files in if ltb f.created time then f ∷ rest else rest

-- The files that are removed, of those listed. `sort` is std::sort by falling time of making.
unfoldable pub deleted_logs : (List LogFile → List LogFile) → ℕ → ℕ → List LogFile → List LogFile
unfolding drop older
deleted_logs sort now back_days files =
    let day_x = now + back_days * day in
    if leb (length files) 10 then [] else older day_x (drop 10 (sort files))

-- `Logger`: the text collected so far.
unfoldable pub append_text : String → String → String
append_text text more = if is_empty text then text <> more else (text <> " ") <> more
