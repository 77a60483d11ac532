-- ===== src/Lib.antt =====
-- posthog-c, from the calls of a game to the bodies that leave it: the library takes events from game
-- threads, with identity, super properties and groups, keeps them in a bounded ring, and a sender
-- thread takes batches out of it and writes them as JSON to the PostHog service, splits, retries and
-- spills them, and reads the answers with a JSON parser of its own.
--
-- The parts, the code each one models, and how they fit together:
--   - Base: the numbers, lists and byte strings that all parts share. A byte is a natural number below
--     256; a C string is the list of its bytes before the NUL, `None` for NULL.
--   - Queue: src/ph_queue.h and src/ph_queue.c, the drop-oldest ring between the producers and the
--     sender. One definition for each function, with its name. Queue/Spec is the sequence that the ring
--     promises to be, Queue/Refine and Queue/Run compare the two, Queue/Account follows each event,
--     Queue/Wake is about the latch that wakes the sender.
--   - Props: the property sets of include/posthog.h and src/ph_props.c. A set is its list of items; the
--     count is the length. Props/Pack writes the packed blob that an event of the ring carries, and
--     Props/Unpack reads it again in the sender. Props/Util is src/ph_util.c: merge, removal, lookup
--     and the denylist.
--   - Json: the string writer of src/ph_json.c, as the bytes it appends while the buffer grows.
--   - Jsonval: the JSON reader of src/ph_jsonval.c. Jsonval itself is its text part: white space, UTF-8,
--     escapes and raw strings; Jsonval/Value is the parser of values and the accessors. A cursor into
--     the input is the list of the bytes left. The trees of C are three data types, for a value, the
--     items of an array and the members of an object.
--   - Ratelimit: the back-off of src/ph_ratelimit.c. Ratelimit/RetryAfter reads the Retry-After header,
--     with strtol and sscanf as far as the code uses them; Ratelimit/Calendar is about its day count,
--     Ratelimit/Delay about what it returns, Ratelimit/Hold about how long sends are held.
--   - Http: the addresses and responses of src/ph_http.c. Http is the strict decoder of chunked bodies, Http/Head
--     the status line, the header scanners and ph__http_decode_response_body, Http/Url parse_url.
--     Http/Lines and Http/Frames lay out chunked bodies and decode them, Http/Bounds and Http/Responses
--     are about the buffers, Http/Rounds and Http/Tokens about the loops, Http/Fields and Http/Codings lay
--     out the head and find its end, its status and its codings.
--   - Time: src/ph_time.c: the correction of the wall epoch, the time stamp and the UUID of an event.
--     The clocks, the seed and gmtime are arguments. Time/Epoch and Time/Uuid hold the theorems.
--   - Reload: the scheduling of flag reloads in src/ph_flags.c: tickets with their history, the job in
--     the queue and the job in flight. Reload/Steps lists the calls, Reload/Valid and Reload/Run follow
--     them.
--   - Core: src/ph_core.c and the parts of src/ph_internal.h and include/posthog.h that it stands on.
--     Core is the state `ph_ctx`, Core/Config the checks of ph_init, Core/Submit ph__submit_event with the
--     token bucket and the profile policy, Core/Api the public calls, one definition for each with its
--     name. Core/Valid is the invariant, Core/Run and Core/Order follow any calls and sender steps,
--     Core/Account is about counters and captures, Core/Blob about the 4096 bytes of an event, Core/Super
--     and Core/Groups about registered properties and groups.
--   - Serialize: src/ph_serialize.c, with the number writers of src/ph_json.c, one definition for each
--     function. An event is decoded by Props/Unpack and written by Json. Serialize/Object reads the object
--     of a property set back with Jsonval; Serialize/Reads has the lemmas on its values.
--   - Sender: the delivery of a run of events in src/ph_native.c: send_run, persist_run, send_one and
--     what they call, over the context of Core, the limiter of Ratelimit and the bodies of Serialize.
--     Sender/Parts and Sender/Account are about what becomes of the events, Sender/Bounds about the size
--     of the bodies, Sender/Batches and Sender/Delivery about a run that the server takes.
--
-- State is passed explicitly: an operation takes the record and returns the new one. A return code
-- that is an error is `none` or a constructor of `Status`. The mutex of the ring makes each of its
-- calls one step, so that an interleaving of threads is a list of calls. So does g_ph.lock for the calls
-- of Core and Reload; a call of Core that takes the lock several times is one step as well.
--
-- Fuel: the loop of ph_unpack_props is given as many rounds as the blob has bytes. The loops over array
-- items, object members, HTTP chunks and codings are given one round more than the bytes left, and the
-- string loop one more than the bytes behind the quote. Each round takes at least one byte, so the
-- rounds are enough. The recursion over nested values is on the levels left of PH_JV_MAX_DEPTH. send_run and
-- persist_run are given the number of events of the run, which each split halves; a writer of entries
-- as many rounds as the blob has bytes, the digits of an integer twenty rounds, the search for the
-- shortest double the sixteen precisions of the source.
--
-- Doubles and 64-bit integers of a property are their bit patterns, which this code only copies.
-- Parameters stand for what is not in the repository: `Float` of Jsonval/Value for the arithmetic by
-- which parse_number rounds, `Doubles` of Core for that of the token bucket, `Platform` of
-- Serialize for gmtime, "%.*g", strtod and the build's tags, `World` of Sender for the answers of the
-- transport, the clocks, the waits and the spill file. Memory is taken to be there, except in
-- ph_queue_init, whose argument says whether it is.
--
-- Not modelled: the sockets, TLS, threads and clocks of the platform and the WebAssembly host; the
-- vendored compressor third_party/sdefl; log messages; and, so far, HTTP requests and the prefix decoder
-- of response bodies, the scrub stage with before_send, the offline file, the drain loop, flush and
-- shutdown of src/ph_native.c, exceptions, the flag cache and its reads, and crash reports.
pub mod Base
pub mod Queue
pub mod Props
pub mod Json
pub mod Jsonval
pub mod Ratelimit
pub mod Http
pub mod Time
pub mod Reload
pub mod Core
pub mod Serialize
pub mod Sender
