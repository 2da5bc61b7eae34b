-- ===== src/Logs/Line.antt =====
-- logger/logger.cpp: the log file of a day, and the lines that end up in it. The deletion that the
-- destructor sets going is that of the parent file.
use Prim.Native.String.{[], ◌∷◌}
use text.Mathlib.TextLemmas.{append_assoc, append-nil, nil-append, cons-append}
use mediaupdater.Base.{
  ◌≡◌, refl, ap, sym, ◌∙◌, String, ◌<>◌, Bool, true, false, Option, none, some, List, [], ◌∷◌,
  if◌then◌else◌, if_false, Bool-cases, inl, inr, arith,
}
use mediaupdater.Base.Int.{ℤ}
use mediaupdater.Base.Text.{is_empty}
use mediaupdater.Qt.{Qt}
use mediaupdater.Logs.{append_text}

-- The program's directory and name, the date in the name of the file, and the time at a line's start.
pub record Place : Type 0 where
  pub app_dir : String
  pub app_name : String
  pub date : String
  pub stamp : String

-- `mLogFile`, by its name, or null.
pub record Logger : Type 0 where
  pub file : Option String
  pub text : String
  pub stream : Bool

unfoldable pub push : String → Logger → Logger
push more l = record l { text = append_text l.text more }

module _ (Q : Qt) (P : Place) where
  abbrev log_dir : String
  log_dir = P.app_dir <> "/logs"

  unfoldable pub init : Bool → Q.World → Logger × Q.World
  init stream w =
      let name = log_dir <> ("/" <> (P.app_name <> ("_" <> (P.date <> ".log")))) in
      (
        record {
          file = if Q.can_make log_dir w then some name else none;
          text = "";
          stream = stream;
        },
        Q.mkpath log_dir w,
      )

  -- Where the file does not open the line is lost.
  unfoldable pub write_log : String → Logger → Q.World → Q.World
  write_log text l w = elim l.file [
    | none ↦ w
    | some name ↦ elim (Q.append_file name (P.stamp <> (text <> "\n")) w) [
      | none ↦ w
      | some w' ↦ w'
    ]
  ]

  unfoldable pub push_number : ℤ → Logger → Logger
  push_number n l = push (Q.number n) l

  -- The destructor.
  unfoldable pub destroy : Logger → Q.World → Q.World
  unfolding write_log
  destroy l w = if l.stream then write_log l.text l w else w

  -- The constructors, each with the destructor that follows it at the end of the statement.
  unfoldable pub log_text : String → Q.World → Q.World
  unfolding init write_log destroy
  log_text text w = let (l, w') = init false w in destroy l (write_log text l w')

  unfoldable pub log_number : ℤ → Q.World → Q.World
  unfolding init write_log destroy
  log_number n w = let (l, w') = init false w in destroy l (write_log (Q.number n) l w')

  unfoldable pub push_all : List String → Logger → Logger
  push_all [] l = l
  push_all (text ∷ texts) l = push_all texts (push text l)

  -- `Logger() << text << ...`
  unfoldable pub log_stream : List String → Q.World → Q.World
  unfolding init destroy push_all
  log_stream texts w = let (l, w') = init true w in destroy (push_all texts l) w'

-- The texts with a blank between two, where those before the first that is not empty are left out.
unfoldable pub spaced : List String → String
spaced [] = ""
spaced (text ∷ texts) = " " <> (text <> spaced texts)

unfoldable pub line_of : List String → String
unfolding spaced
line_of [] = ""
line_of (text ∷ texts) = if is_empty text then line_of texts else text <> spaced texts

module _ (Q : Qt) (P : Place) where
  is_empty_nil : (s : String) → is_empty s ≡ true → s ≡ ""
  is_empty_nil [] h = refl
  is_empty_nil (c ∷ s) h = ground (arith, h)

  is_empty-append : (s t : String) → is_empty s ≡ false → is_empty (s <> t) ≡ false
  is_empty-append [] t h = ground (arith, h)
  is_empty-append (c ∷ s) t h = rw (cons-append c s t) refl

  push_all-spaced :
      (texts : List String) (l : Logger)
      → is_empty l.text ≡ false
      → push_all Q P texts l ≡ record l { text = l.text <> spaced texts }
  unfolding push_all push append_text spaced
  push_all-spaced [] l h = ap (λ t. record l { text = t }) (sym (append-nil l.text))
  push_all-spaced (text ∷ texts) l h =
      let more = (l.text <> " ") <> text in
      ap (λ t. push_all Q P texts (record l { text = t })) (if_false (is_empty l.text) _ more h)
      ∙ push_all-spaced texts (record l { text = more })
          (is_empty-append (l.text <> " ") text (is_empty-append l.text " " h))
      ∙ ap (λ t. record l { text = t })
          (append_assoc (l.text <> " ") text (spaced texts)
            ∙ append_assoc l.text " " (text <> spaced texts))

  push_all-line_of :
      (texts : List String) (l : Logger)
      → l.text ≡ ""
      → push_all Q P texts l ≡ record l { text = line_of texts }
  unfolding push_all push append_text line_of
  push_all-line_of [] l h = ap (λ t. record l { text = t }) h
  push_all-line_of (text ∷ texts) l h =
      ap (λ t. push_all Q P texts (record l { text = t }))
        (ap (λ t. append_text t text) h ∙ nil-append text)
      ∙ elim (Bool-cases (is_empty text)) [
        | inl e ↦ rw e (push_all-line_of texts (record l { text = text }) (is_empty_nil text e))
        | inr e ↦ rw e (push_all-spaced texts (record l { text = text }) e)
      ]

  -- Texts that are streamed to a log leave the machine as the log of one text does: that of the
  -- streamed texts from the first on that is not empty, with a blank between two.
  pub log_stream-log_text :
      (texts : List String) (w : Q.World) → log_stream Q P texts w ≡ log_text Q P (line_of texts) w
  unfolding log_stream log_text destroy init
  log_stream-log_text texts w =
      ap (λ l. destroy Q P l (Q.mkpath (log_dir Q P) w)) (push_all-line_of texts _ refl)
