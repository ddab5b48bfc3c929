-- ===== src/Lib.antt =====
-- egorpugin/primitives: a C++ library of small components. This development models those below,
-- operation by operation, and proves what makes each of them correct.
--
-- The parts and their files:
--   Prelude        what the modules share. Outcome is the result of code that returns (ok), throws
--                  (throw, with one Error per throw in the code, and out_of_steps, which is none of
--                  the code, when patch_file has no steps left) or has undefined behaviour
--                  (undefined). Int is int64_t as an integer whose ++ and -- past the ends are
--                  undefined. Ord is the order of the standard library on vectors and pairs. Decimal
--                  is std::to_string and std::stoll.
--   Version        primitives::version::Version and its Extra (src/version/include/primitives/version.h,
--                  src/version/src/version.cpp): the records, levels, cmp and the five comparisons.
--                  Version/Order shows that they are one order, Version/RealLevel is getRealLevel and
--                  get, Version/Step is operator++ and operator-- (incrementVersion and
--                  decrementVersion), Version/Print is printVersion and toString, Version/Parse is
--                  src/version/src/version.rl and the constructors from a text, Version/Format is
--                  Version::format, Version/Releases is src/version/include/primitives/version_helpers.h.
--   Range          primitives::version::VersionRange (src/version/include/primitives/version_range.h,
--                  src/version/src/version_range.cpp). Range is RangePair, an interval with two sides;
--                  Range/Sides and Range/Pairs read its operators & and | as sets of versions;
--                  Range/Sets is the vector of intervals with |=, &=, contains and ==; Range/Print is
--                  toString; Range/Grammar has the actions of src/version/src/range.yy, which build
--                  ranges by Version::operator++ and VersionRange::operator|=.
--   Csv            primitives::csv::Parser (src/csv/include/primitives/csv.h), a recursive descent over a
--                  char pointer. A cursor is the memory from the pointer on, which ends with the zero
--                  byte and one byte behind it. Csv/Runs and Csv/Total follow the loops to their end,
--                  Csv/Write describes lines of cells, Csv/RoundTrip parses them back.
--   Patch          primitives::patch::patch (src/patch/src/patch.cpp), which applies a unified diff.
--                  Patch/Header is its regular expression and std::stoi, Patch/Script describes the
--                  edits between two texts and their diff, Patch/Hunks, Patch/RoundTrip and
--                  Patch/Whole apply a diff, Patch/Unified the numbers of the unified format,
--                  Patch/Fuel follows the loop of patch_file to its end.
--   Argument       primitives::command (src/command/include/primitives/argument.h): the order of
--                  positions, quoting and the operations of Arguments.
--   Stream         primitives::BinaryStream (src/emitter/include/primitives/emitter.h). Stream/Bounds
--                  is writing, Stream/Memory reading and what reading gives back.
--   Cron           Cron (src/cron/include/primitives/cron.h): its std::map of tasks, push and stop, and
--                  run, one iteration of its loop being one operation under the mutex. Cron/Order is
--                  the map, Cron/System the thread and the callers as a step relation with its
--                  invariant, Cron/Sound and Cron/Fired follow the loop, Cron/Due is a task's visits.
--   Executor       the thread pool (src/executor/include/primitives/executor.h): TaskQueue, and
--                  Executor::push, try_pop, get_task, run_task and stop. Executor/Loop is a thread's
--                  loop, Executor/Push and Executor/Steal are the loops over the queues,
--                  Executor/System interleaves threads and users at the operations under the mutexes,
--                  Executor/Inversion, Executor/Closing and Executor/Safety keep its invariant.
--   Future         SharedState, PackagedTask's call, Future::then, whenAll and whenAny on a vector (the
--                  same file). Future/Visit and Future/Watch follow the ends of futures that whenAll
--                  waits for, Future/Register is what it leaves with them, Future/Depth is the nesting
--                  of setExecuted, Future/Reachable the calls in sequence. Tasks that then gives to the
--                  pool are numbers here; Cron and Executor meet in executor.push, which for Cron is an
--                  argument that says whether it returns.
--   Base           base_raw (src/templates2/include/primitives/templates2/base64.h): b2 and encode and
--                  decode at any alphabet. Base/Bits is the arithmetic of its shifts and masks, Base/Blocks
--                  a block written and read, Base/Steps and Base/Read the loops, Base/RoundTrip the whole,
--                  Base/Alphabets the tables.
--   Emitter        primitives::Emitter and CppEmitter (src/emitter/include/primitives/emitter.h): lines
--                  with indents and emitters in lines. Emitter/Editing changes the lines at the
--                  end, Emitter/Empty is emptyLines, Emitter/Blocks what a block prints.
--   Source         primitives::source (src/source/include/primitives/source.h,
--                  src/source/src/source.cpp): the classes of sources as one data type, the checks of
--                  their constructors, apply. Source/Print is print and printKv, Source/Url the checks of
--                  urls with isUrl of src/http/src/http.cpp, Source/Document save and load over the
--                  operations of a json value, Source/Fields and Source/Loads what is read of what was
--                  written. Source/Calls is the loop of downloadRepository over calls to a host, which
--                  says what throws, Source/Download the commands and downloads of each class,
--                  Source/Checked which of them are made, Source/Repository how the loop ends.
--                  Source/Lines, Source/Entries, Source/Written and Source/Recover read back what print
--                  writes, for Source/Identity: it is what getHash hashes.
--   Compare        FileIterator, compare_files and compare_dirs
--                  (src/filesystem/include/primitives/file_iterator.h); Compare/Contents is what they
--                  compare.
--   Storage        physical_file_storage, physical_file_storage_single_file and file_storage
--                  (src/templates2/include/primitives/templates2/storage.h). file_storage is over an
--                  interface; Storage/Laws is what it needs of it, Storage/Paths and Storage/Index are
--                  the two storages that provide it.
--   Setting        SettingPath (src/settings/src/settings.cpp): toString with its escapes. Setting/Lexer
--                  is src/settings/src/path.ll, each rule as what it matches, with the grammar path.yy
--                  and parse; Setting/Text lexes a part that was written, Setting/Parse a whole path.
--
-- How the state is represented: a Version, a RangePair and a VersionRange are values, since the
-- code copies them; an iterator is the part of the list from it on; a loop that writes through a
-- reverse iterator is a function on the reversed list. The shared states of futures are a memory
-- from pointers to states, since whenAll and then reach for states that others hold. What a thread
-- does under a mutex is one step, and any order of the steps of threads is a run.
--
-- Bounds and fuel. word_length takes 15 steps: its power of 26 passes the end of int64_t before.
-- The loop of fields in Csv has one step more than the text has bytes, each field but the first
-- being behind a delimeter; patch_file has one step more than the diff has lines. The decimal
-- digits of a number are printed with the number itself as fuel. setExecuted has one step more than
-- the states made since its own, as callbacks only reach for later states; split one more than the
-- text has bytes, a newline not being empty; compare_files two rounds more than the first file has
-- bytes. Cron's clock counts the nanoseconds of libstdc++, an
-- int64_t with undefined behaviour past its ends. The n of Executor::try_pop is an int, which is
-- undefined past its end. The unsigned offset of the walk over the index of a single file storage is
-- followed up to 4 GB; where it wraps, the walk is undefined. The other loops are structural.
--
-- Not modelled. pystring::strip, fmt::format, boost::split and boost::replace_all are
-- parameters. The generated parsers (Ragel, flex, bison) are modelled by the grammar they are
-- generated from, the GLR parser of ranges only by its actions. Hashing depends on std::hash.
-- Executor's wait and join, which sleep until the queues are empty, and waiting on a future are not
-- modelled. The components around processes, files, the network and third-party libraries are
-- named in the list of components with the reason.
pub mod Prelude
pub mod Version
pub mod Range
pub mod Setting
pub mod Csv
pub mod Patch
pub mod Argument
pub mod Stream
pub mod Cron
pub mod Executor
pub mod Future
pub mod Base
pub mod Emitter
pub mod Source
pub mod Compare
pub mod Storage
