-- ===== src/Lib.antt =====
-- A model of the file cache of the Andromeda desktop clients, of its locks, of the requests that move
-- the bytes of files, of folders and their items, and of the saving of database objects, with proofs.
--
-- The clients show the files of an Andromeda server as a local file system. A file is kept in memory
-- as pages of a fixed size. src/lib/andromeda/filesystem/filedata holds that cache:
--   PageManager.cpp reads, writes and truncates the pages of one file and decides what to read ahead
--     and in which runs to write back; PageBackend.cpp sends the requests to the server;
--   CacheManager.cpp keeps the pages of all files in the order of their use within a memory limit. A
--     PageManager informs it of each page; it answers by eviction and flushing, at once or by two
--     threads, and calls back EvictPage and FlushPage of the managers;
--   src/lib/andromeda/OrderedMap.hpp is the list with a hash table that both queues of the
--     CacheManager are made of;
--   src/lib/andromeda/filesystem/File.cpp splits reads and writes of any range of a file into reads
--     and writes of its pages;
--   src/lib/andromeda/filesystem/Folder.cpp keeps the items of a folder by name, follows the lists of
--     the server, and creates, deletes, renames and moves items;
--   src/lib/andromeda/SharedMutex.hpp is the lock that readers and writers of a file queue for;
--   src/lib/andromeda/backend has the requests. BackendImpl.cpp reads and sends the bytes of files,
--     in parts as large as the server takes them; HTTPRunner.cpp carries a request out, tries it
--     again where it may pass, and follows redirects;
--   src/lib/andromeda/StringUtil.cpp cuts and joins text, for URLs, paths and the command line;
--   src/lib/andromeda/database keeps objects in a local database: the fields of an object count
--     their changes, and saving it writes the changed ones into its row.
--
-- Files:
--   Common, Common/*: the shared names, the Boolean tests and lists over the native numbers, and
--     Common/Words the arithmetic of uint64_t and size_t, which wraps around.
--   OrderedMap: OrderedMapAnyEntry of OrderedMap.hpp. OrderedMap/Store has the std::list as nodes
--     with addresses and the std::unordered_map from keys to addresses, so that an iterator that
--     dangles is a value of the model. Impl is the pair of static functions that OrderedMap and
--     HashedQueue give. OrderedMap/Invariant has the relation of list and table over the maps that
--     the operations reach; OrderedMap/Spec reads the map as a plain list of entries, and
--     OrderedMap/Laws has the laws of lookup.
--   CacheManager: the members of the class, EnqueuePage, RemovePage, RemoveDirty and ResizePage on
--     them, with the totals as wrapping numbers. CacheManager/Sizes, Counted, Tracking, Resize and
--     Dirty are about the totals. CacheManager/Handle has HandleMemory, HandleDirtyMemory and
--     InformPage with their synchronous loops and their waits, and Ends, SyncEvict, SyncFlush, Inform,
--     Answers and Keeps its theorems. CacheManager/Evictions has DoPageEvictions.
--   PageManager: the state of one file and its read-ahead: isFetchPending, RemovePendingFetch,
--     GetFetchSize, StartFetch, DoAdvanceRead, the callback and the handler of FetchPages.
--     PageManager/Pages has Page and the std::map of pages, PageManager/Flush the writing back with
--     the requests of PageBackend, PageManager/Write GetPageWrite and WritePage, PageManager/Truncate
--     and PageManager/Remote Truncate and RemoteChanged; PageManager/Fetch, Received, Failed,
--     Written, Flush/Runs, Flush/Shape, Flush/Clean, Flush/Sends, Flush/Requests and Flush/All the
--     theorems.
--   File: ReadBytes, WriteBytes, FixPageAlignment, FillWriteHole and Truncate of File.cpp over the
--     operations of pages that it calls. File/Bytes has the bytes of a file as a function of the
--     position, File/Laws what the pages promise; Reads, Writes, Holes, WriteBytes and Alignment the
--     theorems.
--   PageBackend: FetchPages of PageBackend.cpp, which cuts a stream into pages. PageBackend/Pieces,
--     Cutting and Fetching are about one round, one piece and all pieces.
--   SharedMutex: the lock as steps of threads. SharedMutex/Exclusion, Queued and Progress are
--     about who has it, the queue and its waiters; Common/Waiters has that queue.
--   Semaphor: the counting lock of src/lib/andromeda/Semaphor.hpp as steps of threads;
--     Semaphor/Holders, Queued and Progress are about who holds it and who waits.
--   Database: the values of fields and int. Database/NullScalar, Scalar and Counter are the kinds of
--     fields in fieldtypes, Database/Objects is Save of BaseObject.cpp with SaveObject,
--     UpdateObject_Query and InsertObject_Query of ObjectDatabase.cpp; Queries reads the queries, and
--     Saves, Inserts and Edits are the theorems.
--   Backend: Backend/Uploads is SendFile of BackendImpl.cpp with FromString of RunnerInput.cpp;
--     Backend/Streams, Requests, Rounds and Sending are about one stream, the requests, one round and
--     all of them, and Backend/Defects about where it goes wrong. Backend/HttpRunner has ParseURL,
--     DoRequestsAuto, DoRequestsCustom, HandleResponse and RegisterRedirect of HTTPRunner.cpp, and
--     Backend/Attempts and Retries how they end. Backend/Downloads has ReadFile of BackendImpl.cpp and
--     RunAction_StreamOut below it, and Backend/Fetches puts FetchPages of PageBackend on top of them.
--   StringUtil: what StringUtil.cpp does with text, on lists of bytes, and implode of StringUtil.hpp.
--     StringUtil/Explode is about explode, StringUtil/Escape about escapeAll.
--   Folder: SyncContents, LoadItems, CreateFile, CreateFolder, DeleteItem and RenameItem of
--     Folder.cpp, with what PlainFolder.cpp and File.cpp do for them; Folder/Names has the names,
--     ValidateName of Item.cpp and maps by name, Folder/Moves MoveItem, Folder/Locking LockItems.
--     Folder/Syncing, Loading, Renaming and Moving are the theorems.
--   Each Tests: tests, and the theorems at concrete states.
--
-- Parameters:
--   The managers that CacheManager calls are a record of functions (PageManagers of
--   CacheManager/Handle): what EvictPage and FlushPage return or throw, and whether a lock is had. A
--   manager that returns from EvictPage has called RemovePage, one that returns from FlushPage has
--   called RemoveDirty. What other threads do while a caller waits is a list of the states
--   that it wakes up to. Which requests a server refuses is a function of the state and the request
--   (Refuses of PageManager/Flush); a refused request throws. What PageBackend::FetchPages
--   gives for the page of a partial write is a function of its index (Fetch of PageManager/Write).
--   The pages that File works on are a record of operations (Pages of File), whose laws (File/Laws)
--   are what ReadPage, WritePage and Truncate of PageManager do with the bytes of a file. The pieces
--   that a read of the server brings are a list of offsets and bytes. How many rows a query
--   changes is a function of the query (Database/Objects). The HTTP library: what each attempt of a
--   request gives is a function of its number, and the parts of a body are a list. It reads a stream
--   at offsets that grow by what it was given, until the stream ends. For SendFile the server is a
--   function of the round and the request; its answer says how often the runner has tried before.
--   For Folder the server is a record (Server): which requests it refuses, its lists, its answers as
--   JSON, what the constructors of items and Refresh make of them, and FlushCache of a file. Which
--   items other threads have locked after a wait of LockItems is a function (Wait).
--   Database/Queries reads the queries: what SQL says that they do to a row.
--
-- Fuel: the synchronous loops of CacheManager run on the length of the queue, which each round
--   shortens; FlushPages collects runs on one round more than there are pages, and each round takes
--   at least one page off. The loops of File and of FetchPages run on the number of bytes, of which
--   each round takes at least one; WriteBytes calls itself for a hole, never deeper than once. A
--   stream of SendFile is read once more than there are bytes, and SendFile has at most twice as many
--   rounds as bytes and two; a request has one attempt more than the retries that are allowed;
--   explode and replaceAll run on the length of the text, of which each round takes at least one
--   byte. LockItems has at most one wait for each item that is locked when it starts.
--
-- Numbers: totals and limits of CacheManager wrap at 2^64. Offsets, sizes and indices of PageManager
--   are unbounded, since no file reaches 2^64 bytes; where the source tests for an overflow or a
--   difference may fall below 0, the sum or the difference wraps. An int of a field is a word of 32
--   bits in two's complement; a sum that overflows, which C++ leaves open, wraps around.
--
-- Not modelled: debug output and the assertions of debug builds; mutexes and threads of the cache,
--   except as sequences of calls and of states at wake-up; DoPageFlushes, the loops of the two
--   threads and GetPageManagerLock of CacheManager.cpp; the calls of CacheManager by PageManager, that
--   is a PageManager stands for a file whose cache manager is disabled; GetPageRead with its wait.
--   Of the database, loading, deleting and SaveObjects, references between objects and JSON fields. Of BackendImpl, the requests without a stream, its answers as JSON, and the
--   modes read-only and memory; of HTTPRunner, the parameters and headers of a request and the times
--   between attempts. Of folders, the locks of items but for LockItems, GetItemByPath, the kinds of
--   folders other than PlainFolder, the memory mode, and a Refresh that throws half way. The other
--   parts of the repository (options, user interfaces) are not modelled.
pub mod Common
pub mod OrderedMap
pub mod CacheManager
pub mod PageManager
pub mod File
pub mod PageBackend
pub mod SharedMutex
pub mod Database
pub mod Semaphor
pub mod Backend
pub mod StringUtil
pub mod Folder
