-- ===== src/Lib.antt =====
-- The WebDAV server library dav-server-rs: its paths, its lock system, its headers and the
-- preconditions of a request, and its in-memory filesystem.
--
-- A request names a resource by a path (src/davpath.rs), which is decoded and normalised before
-- anything else reads it. Its headers (src/davheaders.rs) are parsed to typed values. The handlers
-- check the preconditions (src/conditional.rs), which ask the filesystem for metadata and the lock
-- system (src/ls.rs, src/memls.rs) for the locks on a path, and then the locks themselves. The lock
-- system keeps its locks in a tree of path segments (src/tree.rs), and so does the in-memory
-- filesystem its files (src/memfs.rs).
--
-- The files, and the code that they model:
-- - Common: lists, options, results, Boolean tests and dictionaries on the native numbers; a text is
--   a list of bytes. `Dict` is a HashMap as a list of pairs; no theorem depends on its order.
-- - PercentEncoding: the crate of that name, a record of functions, and its documented laws.
-- - DavPath: src/davpath.rs, the type `DavPath` and its methods by their names. Segments, Splitting,
--   Names, Prefix and Tree hold what is proved of them.
-- - Fs, Errors: the errors of src/fs.rs and of src/errors.rs, and their status codes.
-- - Tree: src/tree.rs. Tree/Monad: an operation that may leave early with an error and keeps the
--   changes made before, and that may lack fuel; Tree/Ends is about what an operation ends in.
--   Tree/Shape says what a tree is, Tree/Links, Tree/Growth, Tree/Holding and Tree/Deleting follow its
--   changes, Tree/Adding is on `add_child`.
-- - Ls: the lock of src/ls.rs. MemLs: src/memls.rs, the operations of the trait; MemLs/Walk,
--   MemLs/Prune and MemLs/Check are its private functions, MemLs/Agreement is on two of them.
--   MemLs/Pruning, Paths, Returns and Locking follow the operations to their ends, Exclusion and
--   Thinning say how locks exclude one another, Granting, Passing, Room, Growing and Creating how a
--   new lock is let in, Covering is on the locks listed for a path, Deadlines on the time at which a
--   lock ends, and Calls on sequences of calls.
-- - FakeLs: src/fakels.rs, the lock system that grants every lock; FakeLs/Tokens is on its tokens.
-- - DavHeaders: src/davheaders.rs. Values (the errors, `one`), ETag, Number and Timeout (numbers,
--   Depth, Overwrite, Timeout, X-Update-Range), IfHeader (the tokenizer and the state machine of
--   the If header), Server (Destination and the same-server test).
-- - Conditional: src/conditional.rs.
-- - HandleGethead: of src/handle_gethead.rs, the ranges of `handle_get`, its status and length,
--   and the loop that sends a range; HandleGethead/Visible, what is hidden. HandlePut: of
--   src/handle_put.rs, the checks of the headers that say what is written where. HandleLock: of
--   src/handle_lock.rs, the timeout of a lock.
-- - Fs/Guarded: the interface of a filesystem, of src/fs.rs. HandleDelete: src/handle_delete.rs over
--   that interface, with what it removes (Removal, Removing), reports (Reports), answers (Answer) and
--   refuses (Preconditions, Refusals).
--   MultiError: src/multierror.rs. Fs/Kinds: of src/fs.rs, the kinds of collections.
-- - HandleCopymove: src/handle_copymove.rs over that interface: the recursive copy, the move,
--   the checks of a request (Checks), the handler (Handler), what is sent of a copy (Sends,
--   Properties, Copying), what is done where nothing fails (Copied, Completing, Replacing), what a
--   request is answered (Answer), and what is refused (Refusals).
--   HandleMkcol: src/handle_mkcol.rs over that interface and that of XML; HandleMkcol/Made is on
--   what one makes, Undoing on what a failed one leaves behind. Util: of src/util.rs, the methods.
-- - CalDav/Busy: of src/caldav.rs, busy periods and their merging (Merging), and the overlap of a
--   component with a time range (Overlaps); CalDav/FreeBusy, the types and the bounds of a
--   free-busy query. An instant is a number of nanoseconds.
-- - DavFilters: src/dav_filters.rs. CardDav: of src/carddav.rs, whether a card matches the filters of
--   a query; CardDav/Queries compares the two forms of a query, CardDav/Texts reads a property of
--   a card without its parser.
-- - MemFs: src/memfs.rs, the in-memory filesystem on the tree. MemFs/File is an open file,
--   MemFs/Props the metadata, listings and properties, MemFs/Contents what is proved of reading and
--   writing.
-- - Tests: runs at concrete inputs.
--
-- Bounds and fuel. The recursions on the tree take the counter of the next identifier as fuel:
-- identifiers are given in ascending order, and a child comes after its parent in the lock system.
-- The parser of the If header has the length of the header and 3 as fuel, the loop that sends a
-- range the count of the range. The recursive deletion and the
-- recursive copy have as fuel a number above the depth of the
-- filesystem, which is a hypothesis. The counter of identifiers wraps at 2^64, as a release build
-- does; an addition to a `SystemTime` panics where it overflows, with the seconds of 64 bits that Unix
-- has. The numbers of the headers keep the bounds of u32 and u64, parsing included; `usize` has 64
-- bits.
--
-- What is abstracted. The clock, the new tokens (UUIDs) and the crates' functions (percent
-- decoding, UTF-8, URL parsing, `to_str`) are arguments. `Arc<Mutex<..>>` is a state that is passed
-- on: each operation runs under the lock of the mutex. In Conditional the lock system and the
-- filesystem answer from one state during a request; the handlers take the preconditions as a
-- function that may change the state, as the lock system drops expired locks when it is asked. The
-- texts of an owner (XML) are a type parameter. OS paths are bytes, as on Unix.
--
-- Not modelled: the filesystems that call the operating system, the handlers' XML and streams, the
-- parsing of calendars and address books, and the adapters of web frameworks.
pub mod CalDav
pub mod CardDav
pub mod DavFilters
pub mod Common
pub mod PercentEncoding
pub mod DavPath
pub mod FakeLs
pub mod Fs
pub mod Errors
pub mod HandleGethead
pub mod HandleCopymove
pub mod HandleDelete
pub mod HandleLock
pub mod MultiError
pub mod HandleMkcol
pub mod HandlePut
pub mod Tree
pub mod Util
pub mod Ls
pub mod MemLs
pub mod MemFs
pub mod Tests
pub mod DavHeaders
pub mod Conditional
