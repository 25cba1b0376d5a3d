-- ===== src/Lib.antt =====
-- Verification of bsas-sc: programs that merge the tables of several EPICS process variables into one
-- time-aligned table and write tables to files.
--
-- The programs and how they interact. A table is a structured value of the pvxs library with a field of
-- labels and a field of columns (nttableApp/tab/nttable.h). A time table (commonApp/tab/timetable.h and
-- timetable.cpp) has the columns secondsPastEpoch, nanoseconds and pulseId in front. The merger
-- (mergerApp/src) subscribes to tables, keeps the values of each in a `TableBuffer` (tablebuffer.h,
-- tablebuffer.cpp), and a `TimeAlignedTable` (taligntable.h, taligntable.cpp) merges the rows of all
-- buffers by timestamp; the loop of mergerMain.cpp asks it for the bounds of what is buffered and extracts
-- one period after another. The writer (writerApp/src) appends tables to an HDF5 file.
--
-- The files. Paths of the code are from the repository's root.
--   Common    Boolean tests, lists over native numbers, byte strings, and `Result`, an outcome or the
--             exception that is thrown in its place.
--   Stamp     mergerApp/src/tablebuffer.h, tablebuffer.cpp: `TimeStamp` and its operators. The time of
--             EPICS base and its comparisons are the parameter `EpicsTime`, a record of the two
--             comparisons that the code calls with what they mean for seconds and nanoseconds.
--   Stamp/Span   `TimeSpan`, and `TimeBounds` of mergerApp/src/taligntable.h: the loop over the spans of
--             the buffers.
--   Pvxs      What the programs use of pvxs: type codes, arrays, values, as the parameter `Pvxs`, a record
--             of operations and of laws that pvxs documents. Pvxs/Concrete fills it with lists, to run
--             the definitions.
--   Table     nttableApp/tab/nttable.h and commonApp: `NTTable`, `TimeTable` (the two constructors,
--             `is_valid`, `create`, `wrap`), the access to columns by `TimeTableValue`, and `TimeTableStat`.
--   Buffer    `TableBuffer`: a queue of values with a position in the oldest one. `push`,
--             `consume_each_row` with the function it is given and that function's state,
--             `extract_timestamps_between`, `time_span`, `allocate_containers`.
--   Align     `TimeAlignedTable`: the map of buffers, `initialize`, `force_initialize`, `push`, `create`,
--             `get_timebounds` and `extract` with the function that it gives to `consume_each_row`. The
--             map and the columns of the merged table are in Align/Columns. Align/Initialize and Align/Pushed:
--             its type, and `push`.
--   Merger    mergerApp/src/mergerMain.cpp. Merger: the work of `Listener::run` on one item, the end of
--             `Reactor::prepare`, and one round of `Reactor::run`. Times in seconds are floating point
--             numbers: the parameter `EpicsClock`.
--             Merger/Queue: the thread of `Listener` with its bounded queue and the event functions of its
--             subscriptions, as a step relation; the subscriptions of pvxs are the parameter `Subscriptions`.
--             Merger/System: the thread of `Reactor` beside it, on the same table. Merger/Ranges and
--             Merger/Progress: its rounds against the rows that are held; Align/Taken, Align/Progress,
--             Align/Oldest, Align/Going, Align/Returns and Align/Usable: the loops of `extract` on rows with any timestamps.
--             Merger/Program: `Runnable`, the end of `main`, `pvlist_from_file`, the tests of the arguments
--             and the assertions of `Reactor`.
--   Writer    writerApp/src/writer.h, writer.cpp: `Writer`: `parts` (Writer/Names),
--             `build_file_structure` and `write`. The HDF5
--             library HighFive is the parameter `Hdf5` of Writer/Files, a record of operations and of what it
--             documents of groups and of the contents of data sets; failures of the file system are left out.
--             Writer/Memory is an instance. Writer/Structure: the loops of `build_file_structure` on a new
--             file, for columns given as `Entry`, with the PV, the prefix and the name that the writer reads
--             in a column. Writer/Locations and Writer/Stored: the data sets and what `write` puts there.
--             Writer/Merged, Writer/Storable and Writer/Tables: the columns of a merged table as such
--             entries.
--   Archiver  writerApp/src/writerMain.cpp: the program around the writer. Archiver: the arguments,
--             `StopReason`, `create_folder_and_file`. Archiver/Loop: the loops of `main`; one pass of the inner
--             loop is a function of what it observes (`Pass`: the clock, the event, the values of the
--             subscription, what the file system answers) and of the variables of `main` (`Run`).
--             `epicsTimeToTM` and the subtraction of seconds are the parameter `Clock`.
--   Stacker   test/stackerApp/src/stackerSup.cpp: `Stacker`, which collects samples and posts them as tables of
--             the type `TimeTableScalar` of commonApp. A difference of times is a floating point number of EPICS
--             base: the parameter `EpicsDiff`. Stacker/Contents: the columns of a posted table.
--   Tests     Runs at concrete inputs.
--
-- How the code is translated. A method that changes its object returns the object afterwards. An exception
-- is a value of `Error`, and `bad_access` stands for undefined behaviour: a read past the end of an array,
-- a null pointer, an iterator past the end. Where a caller can see what an exception leaves behind (`push`)
-- the object is returned with it. A `std::map` is a list of its pairs in the order of its keys, and a
-- `std::set` a list of its members. Each method of `TimeAlignedTable` holds its lock from beginning to end,
-- so it is one step. Loops are structural recursion on the list or on the number of rows still to come, so
-- no fuel can run out there. `decimal` has fuel, one more than the number, which has at most that many
-- digits; `hex_width` has the total as its fuel, since `16 ^ w` is not below the total from `w = total` on.
--
-- What is not modelled: logging; the state that an exception leaves inside `extract` (nothing catches it
-- before the thread ends); time differences in floating point; the command line parser commonApp/clipp.h,
-- which is a vendored library; managerApp, which is Python; the build files, databases and boot scripts.
-- In mergerMain.cpp and writerMain.cpp the command lines, the log and the PV server are left out; a sleep is
-- the time between two steps. The glue of the stacker to its record and test/simulatorApp are not modelled.
-- Times of EPICS are natural numbers here, which do not wrap around as its unsigned 32-bit seconds do; where
-- that matters (`GoesOn` of Merger/Progress) it is a hypothesis. A conversion of pvxs in `get_column_as` that
-- fails, for a column of another type, is not modelled.
pub mod Common
pub mod Stamp
pub mod Pvxs
pub mod Table
pub mod Buffer
pub mod Align
pub mod Stacker
pub mod Writer
pub mod Merger
pub mod Archiver
mod Tests
