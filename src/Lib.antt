-- ===== src/Lib.antt =====
-- Verification of the core logic of z-reader, an e-book reader: the part that runs in the browser
-- (frontend/src/lib and frontend/src/hooks). The server and the renderer of the books are not
-- modelled; what they answer is an argument of the definitions here.
--
-- Parts and files:
--   Prelude      names of the libraries, tests on numbers, lists and predicates on lists.
--   JsMap        the JavaScript Map in insertion order, as an association list.
--   Offline      the partial downloads of frontend/src/lib/offline-books.ts (Store) and
--                downloadBookFile of frontend/src/lib/book-download.ts (Download), which reads them,
--                asks the server for the rest and stores what it receives; also one append
--                (Store/Single), whole downloaded books (Library), shareBookDownload of
--                frontend/src/lib/shared-book-download.ts (Shared), through which the downloads of
--                one book share a transfer, and createBookFile (OpenBook), which opens the copy on
--                the device or the download.
--   Progress     useProgress of frontend/src/hooks/useProgress.ts: saves of the reading position,
--                its copies on the device (Progress), their synchronisation (Sync) and which copy
--                wins when a book is opened or the page comes back (Loading).
--   Cover        frontend/src/hooks/useCoverUrl.ts: the queue of cover downloads (Queue) and the
--                cache of object URLs (UrlCache).
--   Tts          read-aloud: LRUCache (Lru), the preloads of BackendTTS (Preload) and its player
--                (Player) in frontend/src/lib/tts.ts, and beside it tts-request.ts (Request),
--                tts-diagnostics.ts (Diagnostics), tts-queue.ts (SpeechQueue), tts-audio-focus.ts
--                (AudioFocus), and TTSSpeechBuffer of tts-batch.ts (Buffer) with its binary search
--                (Batch); frontend/src/hooks/useTTSSleepTimer.ts (SleepTimer) and useTTSSession.ts
--                (Session). The player takes prefetched audio from Preload, cached audio from Lru
--                and the focus from AudioFocus.
--   Reader       frontend/src/hooks/useReaderBookmarks.ts (Bookmarks).
--   Shelf        frontend/src/lib/shelf-grid.ts (Grid), and useShelfData of
--                frontend/src/hooks/useShelfData.ts: the merging and deletion of books (Books),
--                the loads, searches and further pages in any order (Loading), and the
--                uploads (Uploads).
--
-- A function keeps its name in snake_case (scheduleCoverFetch is schedule_cover_fetch), a record its
-- fields. State is passed explicitly. An async function is cut at its waits: what comes before and
-- after a wait are functions of their own (begin_save, end_save), or the answers are arguments
-- (Server, Device, Clearing, Signal, Environment, Opening); what other handlers store while a
-- synchronisation waits is an argument too (meanwhile). What can happen in which order is a data
-- type Event with Reach, the states that events lead to. Callbacks, controllers and audio data are named by numbers;
-- what an operation released or revoked stands in its result.
--
-- Fuel and bounds: retry_loop has three rounds of fuel for a loop that gives up at its third
-- attempt, trim of the cover cache has one round for each entry, and search_loop one for each
-- entry searched. The loops that look for the end of a slice have one for each code point of
-- the sentence, of which every turn takes at least one; the reading loops of the speech buffer
-- have fuel for the text that is left and the entries that are there, and say so when they run
-- out. Every other loop is structural recursion. Percentages of the reading position are whole
-- hundredths of a percent and times are milliseconds, both natural numbers; a number of stored
-- JSON is a natural number or anything else. The share of the quota, 0.9 in the source, is
-- compared in tenths; widths of the shelf are whole pixels and fractions of them; a speed of
-- the voice is in hundredths, and a time is compared with another by the product with the
-- speed.
--
-- Not modelled: the user interface and the hooks around the DOM, the timers that set off saves,
-- the metrics of BackendTTS, the marks and the XML of a chunk of speech, progress reports of a
-- download, regular expressions and dates (their results are arguments), a device cache or storage
-- that throws while it is read (but for the queue in end_save), and numbers that are not finite
-- outside the diagnostics.
pub mod Prelude
pub mod JsMap
pub mod Tts
pub mod Cover
pub mod Offline
pub mod Progress
pub mod Reader
pub mod Shelf
