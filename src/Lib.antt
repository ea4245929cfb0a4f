-- ===== src/Lib.antt =====
-- A verification library for erishttp, an HTTP application server in C. A master process starts
-- slave processes; in a slave an event loop puts ready sockets into a queue, task threads take them
-- out, parse the HTTP request into a context, and hand it to a service module.
--
-- The parts and their files:
--   * Common: error codes (include/core/eris.errno.h), lists and Boolean tests, helper lemmas.
--   * Buffer: src/core/eris.buffer.c. `Buffer` is `eris_buffer_s`; `init`, `size`, `capacity`,
--     `cleanup`, `free`, `append`, `append_c`, `append_es`, `copy`, `copy_at` and `destroy` are the
--     functions with the prefix `eris_buffer_`.
--   * EventQueue: src/event/eris.event_queue.c. `init`, `capacity`, `count`, `is_full`, `is_empty`,
--     `put`, `get` and `destroy`. Every function holds the mutex from its first access to its last,
--     so a call is one step, and EventQueue/Trace takes an execution of many threads as a list of
--     calls. A wait on the condition variable is the outcome `waiting`.
--   * EString: operations of src/core/eris.string.c, those that the next parts use and some more, by
--     the names behind `eris_string_`: Hex has `hextov`, Decimal `atol`, Reverse `reverse`, Number
--     `ultoa` and `ulltoa`, Signed `ltoa` and `lltoa`, Strip `strip`, `lstrip` and `rstrip`, Rotation
--     `rotation`, Split `assign` and `split_eris`; Find has `find` and `find_at`, Replace `replace`,
--     both over the bytes of the block of a string.
--   * XForm: src/core/eris.xform.c. `parse`, `get` and `set` are `eris_xform_parse`, `eris_xfrom_get`
--     and `eris_xfrom_set` over a sequence of elements; Form has the texts of forms, RoundTrip and
--     Short what the parser makes of them, Access the two others.
--   * UrlEncode: src/core/eris.urlencode.c. Encode has the three encoders, Decode the automaton that
--     the three decoders share, Spec says what a form-encoded text stands for.
--   * Http: src/core/eris.http.c and include/core/eris.http.h. Http/Header is the part of
--     `eris_http_request_parse` that reads the request line and the header lines: Line and Fields
--     have one function per case of the `switch`, Loop has the loop over the bytes of a read, the
--     loop over the reads, and what the function resets before them. Render writes requests as a
--     client does; Feed, Method, Target, Title, Version, Lines, Open and Reads follow the automaton
--     over such a text, Refusal and Branches what any byte can do. Http/Chunk is
--     `eris_http_chunk_parse`, with one function per case of its `switch`, and
--     Sizes has the sizes of chunks. Http/Body
--     is the part of `eris_http_request_parse` behind the header, Http/Request the whole function.
--     Http/Pack is `eris_http_request_pack`: Pieces appends until an append fails, Bytes and Render
--     follow what the buffer holds, RoundTrip joins the pack and the parser. Http/Client has what a
--     client sets in a request, `eris_http_request_set_command` and the functions behind it, and the
--     tests of its headers.
--   * EList: src/core/eris.list.c. EList/Memory has the nodes and the commands on them, where `none` is
--     an access to a node that is not allocated; the operations have the names behind `eris_list_`.
--     Seg, Join and Rep say which sequence of nodes a list stands for, Spec orders it by priority, and
--     Insert, Push, Sorted, Pop and Find follow the operations. A walk has as many rounds as the list has
--     nodes, which is enough.
--   * PeTree: src/core/eris.petree.c. `PeTree` is `eris_petree_t`, its elements a list; PeTree/Parser
--     has one function per case of the `switch` of `eris_petree_parser`; Runs and Index follow it over
--     the text of a path, Proper and Sound say which trees come from a path.
--
-- Functions return the new context behind their return code. Most loops are structural recursion
-- on the bytes, on the reads, or on the count. The calls of the input callback are a list of
-- reads, each with its return code. Behind the reads of a header the callback fails, since the
-- header limit and an empty read end that loop anyway; behind those of a body, which nothing else
-- ends, the result is `none`: the loop still goes on. Where a loop has a bound of rounds, the
-- bound is enough: a search has as many rounds as the block has bytes, a split one more than the
-- text has, a reversal and a move as many as the text has, a walk through a list as many as it has
-- nodes, and a number below 2^64 has at most 20 digits.
--
-- The allocator is a parameter: for each request it says whether memory is granted and what the
-- new memory holds. `size_t` sums and differences of the buffer wrap at 2^64. A byte is a number;
-- texts without NUL bytes are lists of numbers.
--
-- Not modelled: NULL contexts, the lines written to the log, saving and restoring errno, the text of
-- the reason phrase (its status code stands for it), the five header sizes of a string, its spare room
-- outside of EString/Find and EString/Replace, and what a write behind a block does after a
-- reallocation of a string was refused. The response parser and the packing of responses, the
-- configuration tree and the packing of forms are not modelled; system calls, threads, process control
-- and the event back ends are left out.
pub mod Buffer
pub mod Common
pub mod EList
pub mod EString
pub mod EventQueue
pub mod Http
pub mod PeTree
pub mod UrlEncode
pub mod XForm
