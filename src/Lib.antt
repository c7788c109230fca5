-- ===== src/Lib.antt =====
-- The verification library of cov, a code coverage tool over git repositories: models of the
-- parts of its C++ sources that carry its own logic, and theorems about them.
--
-- Components, with the sources they model (paths from the root of the repository):
--
--   Base: shared lists, tests, integers and orders.
--   Text: comparison of byte strings, as std::string_view does it.
--   Words: 32-bit arithmetic, tags and time stamps, libs/cov-api/include/cov/io/types.hh.
--   Stats: coverage counters and their sums and differences, the same file.
--   Ratio: percentages, their rounding, order and differences, the same file.
--   Strings: the string blocks of object files, libs/cov-api/include/cov/io/strings.hh and
--   libs/cov-api/src/cov/io/strings.cc.
--   Revs: revisions and ranges of reports, libs/cov-api/src/cov/revparse.cc.
--   Modules: named groups of paths, libs/cov-api/src/cov/module.cc.
--   Streams: bytes that are read and stored one behind the other, libs/cov-api/include/cov/streams.hh.
--   Objects: the files of objects. Report, Build, Files, FunctionList and Lines are the handlers of
--   libs/cov-api/src/cov/io/report.cc, build.cc, files.cc, function_coverage.cc and line_coverage.cc;
--   Props has the properties of a build from report.cc, and Dispatch is db_object.cc.
--   Backend: the store of objects, libs/cov-api/src/cov/db.cc. It writes and looks up what Objects
--   stores and loads.
--   References: names of references and the files that hold them,
--   libs/cov-api/src/cov/ref/reference.cc and references.cc.
--   Functions: the calls of functions that stand at one place,
--   libs/cov-api/src/cov/io/function_coverage.cc.
--   Excludes: the lines that marks in the source keep out of the coverage,
--   extras/libs/excludes/src/excludes.cc and strip.cc.
--   Hashes: the digests of messages, libs/cov-api/include/cov/hash/hash.hh and
--   libs/cov-api/src/cov/hash/sha1.cc and md5.cc. Backend makes its ids with them.
--   Format: the texts of formats, libs/cov-api/src/cov/format/parser.cc. Values and Parser read one
--   placeholder, Format cuts a text into tokens and nests them.
--   Chunks: the lines that a listing of a file shows, libs/cov-core/src/cvg_info.cc. It takes the
--   functions that Functions makes, and the coverage that Chunks.Expand makes as
--   libs/cov-rt/src/report.cc does.
--   Text.Parts: trim, tolower and split, extras/libs/ext_native/include/native/str.hh.
--
-- Conventions. A byte is a number below 256 and a byte string a list of them. Unsigned words are
-- natural numbers with the wrap-around written out, signed ones are integers. A read out of bounds
-- or a division by zero, which C++ leaves undefined, is `none`. Allocation is taken to succeed.
--
-- Streams, Objects and Backend. A load is a function from the bytes that are left to a value and what
-- is behind it, a refusal, or a fault, which is a read past the end of a buffer. Words are stored by a
-- little-endian machine, and a write takes all bytes. A store that throws or fails is `none`. The JSON
-- library and zlib are records of functions; the store is the list of its files.
--
-- References takes the file system and git's ids as a record of functions. The outer `none` of a
-- result is a name whose check reads the front of an empty string. The loop of `peel_target` runs on
-- fuel, for which more than the number of symbolic references on the way suffices, if there is an end.
--
-- Revs takes the repository as a record of functions: what a name, an abbreviation and a report id
-- stand for. Its loop over parents runs on fuel, for which more than the lengths of the two
-- histories suffice; the loop over '^' and '~' has the length of its text for fuel.
--
-- Excludes takes the searches for marks, which are regular expressions, as a record of functions. To
-- read a vector's element after the vector was cleared is `none`.
--
-- Hashes. The block that is not full is the list of its bytes. The loop over whole blocks has the number
-- of bytes for fuel, of which every round takes 64.
--
-- Format. A pointer into a text is the text from there. Every round of the loop over a text but the last
-- takes a '%', so one more than the length of the text is enough fuel.
--
-- Chunks. The chunks are listed from the back. The loop over lines without code has their number for
-- fuel, the one over the digits of a number the number itself.
--
-- Modules is read from the list of entries that git gives for a configuration; entries without a value
-- are not modelled.
--
-- Objects. A handler is not given the tag, the version and the id of the file, which none of the
-- handlers that are modelled uses.
--
-- Not modelled: input and output, the command line, rendering, and third-party code; of the parts with
-- logic of their own, projections of reports, the formatter that prints, the iterator over
-- references and the JSON that strip.cc changes.
mod Base
pub mod Words
pub mod Stats
pub mod Ratio
pub mod Text
pub mod Strings
pub mod Revs
pub mod Modules
pub mod Excludes
pub mod Format
pub mod Functions
pub mod Streams
pub mod Objects
pub mod Backend
pub mod References
pub mod Hashes
pub mod Chunks
