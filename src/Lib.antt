-- ===== src/Lib.antt =====
-- MiniVHD, a C library that creates, opens, reads and writes VHD disk images (src/*.c).
--
-- An image is a file. A fixed image is the disk's sectors followed by a footer; a sparse image holds
-- a header, a block allocation table and blocks that are added on demand, each with a bitmap of the
-- sectors it stores; a differencing image is a sparse one whose absent sectors are its parent's.
--
-- Memory and Stdio: the caller's buffers, arrays with bounds, and binary streams, the part of the C
--   library that the code uses.
-- Endian: mvhd_from_be16 .. mvhd_to_be64 of src/util.c, on a little-endian host; Endian/At is about
--   the words of a file.
-- World: files, the heap, the error of a call and the libraries that the code calls, with
--   mvhd_fopen of src/util.c; a monad of state and faults.
-- Layout and Image: the constants and structures of src/internal.h and src/minivhd.h.
-- StructRw: src/struct_rw.c, the footer and the sparse header as bytes and back.
-- Checksum: mvhd_gen_footer_checksum and mvhd_gen_sparse_checksum of src/util.c, and the two
--   validations of src/manage.c.
-- Geometry: mvhd_calculate_geometry of src/manage.c and the size functions of src/util.c.
-- Cookie: mvhd_is_conectix_str of src/create.c, with Cookie/Last about a file that ends in a
--   footer.
-- Io: src/io.c, on the handle `Meta`, whose `disk` is what the file holds; the reading of a sparse
--   image here, with Io/View what an image holds and Io/SparseRead the read's proof, and the
--   writing in Io/Write: Zeros, Append, Added and Create are about a new block, Flush about the
--   bitmap, Room about the blocks that can be added, Persist about what a later open finds, Again
--   about two handles on one file, Prepare, Put, Round and Loop about the sectors, Written and
--   ReadBack about the whole write, KeepsFooter about the end of the file. Io/Fixed is the fixed
--   image, Io/Diff the differencing one, whose parents stand behind it in a list.
-- Util: the rest of src/util.c: Clock the timestamps, Uuid, Crc and Messages.
-- Manage: the rest of src/manage.c. What an open reads is here, Manage/ParentPath is the search for
--   the parent, Manage/Open mvhd_open, mvhd_close and the update of the parent's timestamp, and
--   Manage/Sectors the client's reads and writes by the handle's two function pointers. Below
--   Manage/Open, Balance, Stages, Ready and Outcome are about one open and what it holds, Accept,
--   Run, FixedImage and SparseImage about a file that is accepted, Reopen about a written one,
--   Recursion about the calls for the parents, Parented and Lineage about the handles with them and
--   Close about the end; Manage/Shape and Manage/Table are about the block's shape and the block
--   table, Sectors/Format about formatting.
-- Create: src/create.c, with Create/Locators, Fixed and Sparse for the parts of an image and
--   Create/Options for mvhd_create_ex; Create/Signed is about a new footer, Fixed/Image and
--   Fixed/Opens about a new fixed image, Sparse/Image, Header, Run and Opens about a new dynamic
--   one, Options/Settled about the options that are accepted.
-- Convert: src/convert.c, with Convert/Measure and Convert/Empty for what a conversion starts from,
--   Convert/Copy and Convert/Extract for the loops to and from a dynamic image, Convert/Sparse and
--   Convert/Raw for the whole conversions and Convert/RoundTrip for both.
-- Vhdcvt: contrib/vhdcvt.c, the tool that converts files, on getopt of contrib/win32/getopt.c in
--   Vhdcvt/Arguments; Vhdcvt/Ends is about the loop over the options, Words, Scan and CommandLine
--   about what it makes of a command line, Names about the names of the outputs and RoundTrip about
--   two runs.
-- Examples: tests, and the theorems at concrete inputs.
--
-- A C integer is a native number below its type's bound, with its wrap-around written out; an int
-- parameter that the code mixes with uint32_t is its 32-bit pattern. Undefined behaviour, such as an
-- index outside the block table, is the result `none`, but for the count of truncated sectors, whose
-- signed overflow wraps, and for a seek to 2 ^ 63 or further in the write of a table entry, which is
-- made. Loops recur on the rounds that are left, so they need no fuel; the loop over a command
-- line's options has fuel for each of its characters, and the recursion of mvhd_open over the
-- parents runs on fuel, one unit an image, and a run that needs more is `none`. Host memory is
-- little-endian. A stream holds its file's contents from fopen on and fclose puts them back, so one
-- file open in two streams at once is not modelled; a stream that is never closed puts nothing back.
-- The times that stat gives do not change in a call.
--
-- Not modelled: the path and encoding libraries (src/cwalk.c, src/xml2_encoding.c), copies of other
-- projects' code, which are functions of World's `Host`; the test driver and what the tool prints;
-- the 0 that mvhd_format_sectors returns; null handles passed to the library; the progress callback.
pub mod Prelude
pub mod Memory
pub mod Stdio
pub mod Endian
pub mod Layout
pub mod World
pub mod StructRw
pub mod Checksum
pub mod Geometry
pub mod Cookie
pub mod Image
pub mod Util
pub mod Io
pub mod Manage
pub mod Create
pub mod Convert
pub mod Vhdcvt
mod Examples
