-- ===== src/Lib.antt =====
-- The updater of a media station: a service that asks an account server where its files are, walks
-- the files on an FTP server, downloads what is missing, moves it to where the player reads it, and
-- deletes what is no longer listed. Paths below are from the root of the repository.
--
-- The program's parts, and the files here that model them:
--
-- LoginInfo          src/updater/logininfo.h and .cpp: where and as whom to log in.
-- Station            src/managetools/stationmanager.h and .cpp: directories, revisions, and the
--                    settings kept in ini files. Station/Identity is its constructor, update (that of
--                    Linux and macOS; that of Windows is in Station/Identity/Windows), its number and
--                    its credentials.
-- Content            src/updater/content.h and .cpp: the files of one kind. Content/Collect is what a
--                    content lists (collectContentFromFile and the directory collectors), Content/Build
--                    its constructor and setRevision, Content/Copy copyToDestination, Content/Excess
--                    deleteExcessFiles and sync. The three files named Owner say that the
--                    entries of a content point to it, Content/Collect/Missing which of
--                    the files that a table lists are not there, Channels and Adverts beside it
--                    what the two tables add to its lists.
-- Check              src/updater/checkdownloadedcontent.h and .cpp: which files are known to be whole.
--                    Check/Files is checkAllFiles, which follows pointers to contents.
-- Heap, Manager      src/updater/contentmanager.h and .cpp: the live contents and the map of the files
--                    to download. Manager/Files is that map; Heap/Live and Manager/Live say
--                    which pointers can be followed.
-- Download           src/updater/downloadmanager.h and .cpp: the state of the download manager.
--                    Download/Settings is about checkConnectionSettings, Download/Ftp is the walk on
--                    the server, Download/Phases the revision phase, the content phase and the step
--                    from file to file, Download/Transfer the signals of the reply of one file.
--                    Download/Course is the download manager as a whole: which call or signal can come
--                    in a state, and its slot. Its children are about the walk (Walk), a reply (Path,
--                    Reply), the phases (Steps), whole courses (Safety), the end of the content phase
--                    (Phase) and of the revision phase (Round), what is awaited after each signal
--                    (Await, Turn, Mode), the timer that watches the FTP server (Watch), and the
--                    count of the files of a content phase (Tally), and the timer of a reply (Armed).
-- Account            src/managetools/accountmanager.*, settingsstore.*: the account's data and their
--                    cache. Account/Store compares SettingsStore with a store of plain texts;
--                    Account/Values are the numbers in an answer.
-- Eventer            src/eventer/eventer.*, eventercontroller.*: the messages about what happens, and
--                    the address that they are sent to.
-- Logs               src/logger/loggerdelete.cpp, logger.*: the deletion of old logs; Logs/Line is the
--                    log itself.
-- Update             src/updater/updatecontroller.*, uploadmanager.*: a round of the service.
--                    Update/Service is the controller with all that it drives: what can come to it in
--                    a state, and the slot that takes it. Its children are about the states (Sound),
--                    answers that are not awaited (Late), the steps (Laws), runs (Runs) and what they
--                    report (Progress), the timer that watches the FTP server (Watching), the
--                    way back to the timer where no server answers (Silence),
--                    and an abstract machine of six phases (Protocol).
--                    Update/Program is src/updater/lmmediaupdaterservice.*: start and stop by the
--                    operating system.
--
-- Base holds what the parts share: equality tests, lists, texts, integers. Tests runs the theorems on
-- concrete inputs.
--
-- How they interact. UpdateController starts the account manager; its answer becomes the login data of
-- the download manager, which asks the content manager for the files of a revision, walks and downloads
-- them, does the same for music and adverts, stores the server's revision if all files are whole, and
-- has the contents synchronised. A content asks the record of downloaded files which files are whole,
-- and the record deletes those that are not.
--
-- How code became definitions. A class is a record of its members, named as they are; a method is a
-- function from the state to the state and its result, and a signal handler a function of the signal's
-- arguments. Code that touches the machine takes a state of the machine and gives the next. Calls of
-- QFtp, QNetworkAccessManager and the events' server, and posted or emitted signals, are actions that
-- are added to a trace, in order. Qt is a parameter: Qt.antt names the operations that the sources call
-- and, in IsLawful, the documented behaviour that theorems assume; Qt/Memory.antt is an instance that
-- meets it. SimpleCrypt and the JSON parser are parameters in the same way, and std::sort of the logs
-- is an argument.
--
-- Pointers. A content is known by an address that is never given out twice; an entry of a content's list
-- holds that address, and a handler gives none where the code would follow a pointer that is null or
-- whose object was deleted. A member that a constructor leaves unset is an argument of the model's
-- constructor.
--
-- Courses. A course of the download manager is a list of calls and signals that may come in the state
-- that they meet: an entry where the server was ever asked for a file, as QFtp gives one for each line of
-- the answer; the end of a command, failed or not, where any was given; a posted call where one was
-- posted; the signals of a reply while there is one, that of a timer while it runs, and the start of a
-- round when there is no reply. A run of the service is the same for all that the controller drives, and
-- there the rounds are started by the controller itself. Theorems that hold only where the server answers
-- each question once have that as a hypothesis, in_order: for the path of a file the server sends at most
-- one line, as RFC 959 has it for LIST, and no LIST fails after its line. It also admits what QFtp signals
-- unasked: answers of a server that was given up, and the ends of earlier commands that did not fail.
-- Without it the code follows dangling pointers: Download/Ftp/Twice is about a second entry. The signal startTimer of the download manager, an action of its trace, starts the timer of
-- the controller when the slot that sent it returns.
--
-- Numbers. Sizes and counters are integers without bound, since an overflow of a signed integer in the
-- sources is undefined; the percentage of finished files is a division of natural numbers, as both sides
-- are never negative there. All loops are recursion on the list that they run over; no fuel is used.
--
-- Not modelled: QSettings::sync, since a store is read and written at once here; the mutex of the
-- download manager, since one handler runs at a time; the calls of the log by the other parts, and the
-- timers of its deletion; the start of the process and its signal handlers; src/qftp, src/qtservice and
-- simplecrypt, which are copies of other libraries.
pub mod Base
pub mod Qt
pub mod LoginInfo
pub mod Station
pub mod Content
pub mod Check
pub mod Heap
pub mod Manager
pub mod Download
pub mod Account
pub mod Eventer
pub mod Logs
pub mod Update
mod Tests
