-- ===== src/Lib.antt =====
-- The Python thin client of GridGain (`pygridgain`): a client keeps connections to the nodes of a
-- cluster, and each operation writes one request to a connection, in a little-endian binary
-- protocol, and reads one response. This library models the parts of it that compute, and proves
-- what makes them correct. Paths are from the root of the repository.
--
-- The parts, and the files that model them:
--
-- - Prelude: native numbers, lists measured by them, integers, bit operations as Python has them on
--   integers of either sign (`Prelude/Numbers`), results that an exception ends
--   (`Prelude/Outcome`), and dictionaries as association lists in order of insertion
--   (`Prelude/Dict`).
-- - Utils: pygridgain/utils.py. Java hash codes, cache, entity and schema identifiers.
-- - Datatypes: pygridgain/datatypes. `Datatypes/Wire` has numbers as bytes and the reading of a
--   stream, `Datatypes/Scalars` what `from_python_not_null` of the classes in primitive_objects.py,
--   primitive_arrays.py and standard.py write, and `Datatypes/Scalars/Parse` what their
--   `parse_not_null` and `to_python_not_null` read. `Datatypes/Values` has the objects that hold
--   others (null_object.py, complex.py, the arrays of standard.py), binary objects among them, and
--   the dispatch by type code (internal.py), over the classes and values of `Datatypes/Classes`.
--   `Datatypes/Binary` has the layout of a binary object: header, offsets and footer
--   (pygridgain/binary.py).
-- - Client: pygridgain/client.py. `Client/Affinity` has the mapping of caches to partitions and the
--   choice of a node for a hash code, `Client/Nodes` the choice of a node without a mapping.
-- - Connection: pygridgain/connection. `Connection/Receive` has the receiving of one packet in
--   pieces (`Connection.recv`), `Connection/Protocol` the protocol context, its features, and the
--   fallback of `Connection.connect` to the version that a server expects, `Connection/Handshake`
--   the bytes of the handshake request, and `Connection/Handshake/Response` the reading of its
--   answer. `Connection/Aio` has the packets and the pending requests of the asynchronous
--   connection (aio_connection.py).
-- - Queries: pygridgain/queries. Identifiers and headers of requests, the description of a cache
--   with its expiry policy and transaction (`Queries/CacheInfo`, for cache_info.py and
--   datatypes/expiry_policy.py), and headers of responses (`Queries/Responses`).
-- - `Queries/Perform` has a request with its answer (`Query.perform`).
-- - Api and Caches: `Api/KeyValue` has the queries of pygridgain/api/key_value.py and `Api/Sql`
--   those of pygridgain/api/sql.py, with what the protocol says of them in `Protocol`, and `Caches`
--   the methods of `Cache` (pygridgain/cache.py). `Api/Affinity` has the answer with the partitions
--   of caches (pygridgain/api/affinity.py) and the retries of `_get_affinity`
--   (pygridgain/client.py).
-- - Cursors: pygridgain/cursors.py. Iteration over the pages of a query, and closing.
-- - Transactions: pygridgain/transaction.py and pygridgain/api/tx_api.py.
--
-- How they meet: a request that `Queries` frames is a packet that `Connection/Receive` takes in
-- whole; the protocol context decides which header a response has and what `Queries/CacheInfo`
-- writes; the affinity version of a response tells `Client/Affinity` what to ask for again, and
-- `Api/Affinity` asks; the codecs of `Datatypes` write and read all of these fields.
--
-- The conventions:
--
-- - A byte is a number below 256, a stream the list of the bytes that are left. Parsing in the
--   source first builds a `ctypes` structure and then reads its fields back from the same bytes;
--   here the two are one function, and of two errors the one that comes first in the bytes is
--   raised. A stream that ends within an object raises, as
--   `from_buffer_copy` does.
-- - A text is a list of code points in Utils and in `Connection/Handshake`, and its UTF-8 bytes in
--   Datatypes; a float is the bits of its IEEE form; a point in time or a span is its number of
--   microseconds, in a zone without offset; a decimal is a sign, its digits as a number, and the
--   number of its decimal places. `Datatypes/Context` has the arithmetic of the default decimal
--   context, and `Datatypes/Times` that of the floats through which times are converted.
-- - What is not under src/ is a parameter: `str.lower` and `str.upper`, `random.choice`, the equality of keys of dictionaries, and
--   whether connecting to a node succeeds, what a server answers, and how the network cuts a packet
--   into pieces. The registry of classes of binary objects is one too.
-- - `bit_length` and `digits` have as much fuel as the number is large, which is enough since each
--   round makes it smaller; the rounding to a double has more rounds than the numbers of this code
--   need. `recv` has a round for each byte of the packet, which is enough since each round receives
--   one. `connect` has fuel because its loop need not end; its theorem says when two rounds are
--   enough. `tries` has the number of its turns, 32 of them. `read_value` has fuel for the depth of
--   nesting of the object, where the source recurses on the stack of the interpreter. Other loops
--   are recursion on the list or on the number that they count.
--
-- What is not modelled: the rest of `get_best_node` behind the update of the mapping, the making
-- of classes for binary objects and their registering on the server, the structures of cache
-- configurations, the inference of a class from a Python value, the event listeners and logging
-- (monitoring.py), TLS parameters (connection/ssl.py), the C extension (cext, which computes what
-- utils.py computes), and the coroutines, which make the same steps as the functions that are
-- modelled, with `await` at the requests.
pub mod Prelude
pub mod Queries
pub mod Utils
pub mod Transactions
pub mod Datatypes
pub mod Api
pub mod Caches
pub mod Client
pub mod Connection
pub mod Cursors
