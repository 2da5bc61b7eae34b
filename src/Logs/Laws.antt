-- ===== src/Logs/Laws.antt =====
-- LoggerDelete::deleteLogs: which files go.
use mediaupdater.Base.{ℕ, ◌⊎◌, zero, suc, ◌+◌, ◌-◌, ◌*◌, ◌≤◌, ◌<◌, ◌≡◌, refl, List, [], ◌∷◌, arith}
use mediaupdater.Base.Lists.{length}
use mediaupdater.Logs.{LogFile, day, drop, older, deleted_logs}

length-drop : (n : ℕ) (files : List LogFile) → length (drop n files) ≡ length files - n
unfolding drop
length-drop zero files = omega arith
length-drop (suc n) [] = omega arith
length-drop (suc n) (f ∷ files) = omega (arith, length-drop n files)

length-older-le : (time : ℕ) (files : List LogFile) → length (older time files) ≤ length files
unfolding older
length-older-le time [] = omega arith
length-older-le time (f ∷ files) = ground (arith, length-older-le time files)

-- At least ten of the files listed are kept, or all of them, if sorting keeps their number.
pub deleted_logs_keeps_ten :
    (sort : List LogFile → List LogFile) (now back_days : ℕ) (files : List LogFile)
    → length (sort files) ≡ length files
    → (deleted_logs sort now back_days files ≡ [])
      ⊎ (length (deleted_logs sort now back_days files) + 10 ≤ length files)
unfolding deleted_logs
deleted_logs_keeps_ten sort now back_days files h = ground (
  arith,
  length-older-le (now + back_days * day) (drop 10 (sort files)),
  length-drop 10 (sort files),
)

abbrev pub MadeBy : ℕ → List LogFile → Type 0
MadeBy now [] = Unit {0}
MadeBy now (f ∷ files) = (f.created ≤ now) × MadeBy now files

MadeBy-drop : (n now : ℕ) (files : List LogFile) → MadeBy now files → MadeBy now (drop n files)
unfolding drop
MadeBy-drop zero now files h = h
MadeBy-drop (suc n) now [] h = h
MadeBy-drop (suc n) now (f ∷ files) h = MadeBy-drop n now files h.1

older_all :
    (time now : ℕ) (files : List LogFile) → now < time → MadeBy now files → older time files ≡ files
unfolding older
older_all time now [] h m = refl
older_all time now (f ∷ files) h m = ground (arith, older_all time now files h m.1)

-- The age of a log does not count: the day limit is added to the present, so that with a limit
-- of a day or more, and more than ten logs, none made after now, all but the ten newest go.
pub deleted_logs_any_age :
    (sort : List LogFile → List LogFile) (now back_days : ℕ) (files : List LogFile)
    → MadeBy now (sort files)
    → 0 < back_days
    → 10 < length files
    → deleted_logs sort now back_days files ≡ drop 10 (sort files)
unfolding deleted_logs
deleted_logs_any_age sort now back_days files m h n = ground (
  arith,
  older_all (now + back_days * day) now (drop 10 (sort files)) (omega arith)
      (MadeBy-drop 10 now (sort files) m),
)
