-- ===== src/Lib.antt =====
-- A verification library for the C++ of this repository, three course projects.
--
-- p1 is a word locator. `Command` reads a line, `Context` keeps the state of a session and executes
-- commands, `Dictionary` loads a file and answers where the n-th occurrence of a word is, and its words
-- are in a radix tree, `Dictionary::Node`. p1/wl.cpp and wl.h:
--   Wl/Text        Parser::ToLower and Dictionary::Parse. Below it, Runs has the words that a line has, and
--                  Words is about Parse
--   Wl/Node        Dictionary::Node: Diff, Split, Next, Insert, Search. Below it, Spec says what a well-
--                  formed tree keeps under a word, and Late which words Insert puts in a wrong place
--   Wl/Dictionary  New, SetLodable, Load, Locate; the file system is a function from paths to bytes, and
--                  Dictionary/Load has the words of a file, whatever its lines
--   Wl/Command     Parse and Receive; the regular expressions are written out as matchers
--   Wl/Context     Execute, PrintResult and main; the output is a list of lines. Below it, Model has the
--                  session that a context is for, and Loading and Session are about Execute
-- Strings are lists of bytes, and 32-bit and 16-bit numbers wrap or are bounded as in the source. The
-- loops over a word or a line have its length as fuel; a loop that used it up would end in a value of its
-- own, which is not one that the source returns.
--
-- p2 is a buffer manager: a pool of frames for pages of files, a hash table from pages to frames, and a
-- clock that chooses the page to evict. p2/src:
--   Pool/Outcome    the exceptions, and methods that may throw; a method that throws keeps the changes
--                   that it has made
--   Pool/HashTable  bufHashTbl.cpp: hash, insert, lookup, remove; Chains is about one chain, and Laws
--                   takes the table as a partial function
--   Pool/Manager    buffer.cpp and buffer.h: BufMgr, with its State and BufDesc. Below it, Linked,
--                   Install and Sound have the invariant; Evict, Visit, Rounds, Clock, Alloc, Exceeded
--                   and Finds are about allocBuf, Fetch, Frames and Pages about readPage, Obtain and
--                   Release about allocPage and unPinPage, Flush, Sweep and Settled about flushFile,
--                   Dispose about disposePage and the constructor, and Reach about all calls in any order
-- A file is known by the number of its name, as the source compares files by name, and what the manager
-- asks of class File is the interface `Files`, which may throw anything and change the disk as it likes.
-- std::hash is a parameter. The loop of allocBuf has 2 * numBufs + 2 as fuel: it has at most
-- 2 * numBufs + 1 rounds and one more test. A pin count is a number without bound, so more than 2^31 - 1
-- pins of one page, where the source's `int` overflows, are not modelled, nor are a pool of no frames,
-- the printing of the manager, and statistics, which the source never changes. The files do not throw
-- HashNotFoundException, which disposePage would catch and delete the page again.
--
-- p3 is a B+ tree index over its own buffer manager and files. btree.cpp and btree.h of p3/src:
--   Index/Array      copyArray and its uses within a node
--   Index/Entry      a key with a value, and lists of them in order
--   Index/Leaf       the leaves, and the insertion into one by BTreeIndex::insertUnderNode. Below it,
--                    Entries has the entries of a leaf as a list, Insert and Split are about the insertion
--   Index/Inner      the inner nodes, and the insertion of a child into one by insertUnderNode. Below it,
--                    Children has the children as a list, Insert, Split and Level are about the insertion
--   Index/Store      the pages with their pin counts, as the index uses them through its buffer manager
--   Index/Insertion  insertUnderNode as a whole, and insertEntry
--   Index/Kids       a child replaced in a list of children by what an insertion under it leaves
--   Index/Tree       the tree that the pages hold. Below it, Leaves, Under, Nodes and Divide are about the
--                    step of insertUnderNode at a leaf, down to a child, and back at a node, Grow about
--                    the recursion, and Top and Root about insertEntry
--   Index/Build      the constructor, for a file that is there and for one that is not; below it, Made
--   Index/Scan       startScan, scanNext and endScan. Below it, Pins is about the pins that a scan holds,
--                    Range has what a scan has still to return, First and Ahead are about startScan and
--                    scanNext returning that, and Lost about the entries that a scan misses
-- file.cpp and file.h of p3/src:
--   Files            PageFile: allocatePage, readPage, writePage, deletePage, and the iterator that they
--                    use. Below it, Tail, Reuse and Delete are about the pages in use and the free ones
-- The content of a page is of any type. A loop over the used pages has fuel, which allocatePage does not
-- use up where the pages are linked in order. The number of pages wraps at 2^32; the count of free pages
-- is a number without bound.
--
-- An `int` is the number greater by 2^31. The occupancies are parameters, and so is what is on a page that
-- allocPage gives, but that a new node has no third child, where the source counts on an empty page. The
-- fuel of insertUnderNode and of the loop of startScan is the height on the header page. The pool is never
-- full, and a page is what was last written to it, also when startScan reads the level of a node whose page
-- it has unpinned. The page numbers that an index is given are without bound. The records that FileScan
-- gives are a list.
--
-- Not modelled: the files and slotted pages of p2 (p2/src/file.cpp, page.cpp); of p3 the buffer manager,
-- slotted pages, BlobFile, the counts of open files and FileScan, the flushFile at the end of the
-- constructor of the index, and its destructor; the tests. p5 is not C++. Prelude has the names that all parts use.
pub mod Prelude
pub mod Wl
pub mod Pool
pub mod Index
pub mod Files
