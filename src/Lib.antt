-- ===== src/Lib.antt =====
-- A model of the core of mbed client, a LWM2M client for devices: the tree of objects with its
-- values and observations, the CoAP requests on them, the TLV codec for the values, the report
-- handler that decides when an observed value is sent, and the state of the client's interface with
-- its retries.
--
-- - Common: tests on numbers and options, lists over the native numbers, signed integers, and what
--   masks do to a number.
-- - Text: `reverse`, `itoa_c` and the conversions of integers and arrays of source/m2mstring.cpp.
--   `convert_array_to_integer` keeps the 64 bits of its sum.
-- - Tlv: the data of mbed-client/m2mresource.h, m2mresourceinstance.h and m2mobjectinstance.h as
--   far as the codec uses it. Tlv/Serializer is source/m2mtlvserializer.cpp; Tlv/Header is
--   `TypeIdLength`, and Tlv/Deserializer with its child modules is source/m2mtlvdeserializer.cpp;
--   Tlv/Create is the creation of resources in source/m2mobjectinstance.cpp as the codec calls it.
--   Tlv/Encoding says what the bytes of a TLV are, Tlv/Store what a sequence of writes is; the codec
--   refines both. Tlv/FirstLook is about the pass that only checks.
-- - Report: source/m2mreporthandler.cpp, with the attributes of a query in Report/Attributes and
--   Report/Parse. Report/Delivery runs the handler on a sequence of events.
-- - Interface: source/m2minterfaceimpl.cpp. Interface/Callbacks has the callbacks that the nsdl
--   interface makes and `socket_error`, Interface/Address the server's address, Interface/States the
--   state functions, Interface/Machine the requests, the observers and `state_function`.
--   Interface/Retry is about retries, Interface/Resting and Interface/Runs about runs of events,
--   Interface/Refusals about requests that the state does not allow.
-- - Buffer: mbed-client/m2mstringbuffer.h with source/m2mstringbufferbase.cpp; Buffer/Paths has the
--   paths that source/m2mbase.cpp builds, Buffer/Room is about the room that they need.
-- - Block: source/m2mblockmessage.cpp; Block/Sequence is about what is read of a block.
-- - Vector: mbed-client/m2mvector.h, with its array; Vector/Contents is about its elements.
-- - Storage: source/m2mcallbackstorage.cpp over such a vector; Storage/Associations and Storage/Laws
--   read it as a map.
-- - Objects: a `Node` has the members of `M2MBase`, and Objects/Base its functions. Objects/Line is
--   an object with one of its instances, resources and values, and what a change of that value
--   sends, of source/m2mresourcebase.cpp and the `notification_update` of the others. Objects/Tree
--   searches and removes, Objects/Make creates, Objects/Levels sets the levels of observation, of
--   source/m2mobject.cpp, m2mobjectinstance.cpp, m2mresource.cpp and m2mresourceinstance.cpp.
--   Objects/Closure, After, Silence and Delivery are about what changes of values send.
-- - Requests: the GET, PUT and POST handlers of the same files. Requests/Get has the first, Value
--   the PUT to one value, Put that to the others, Post the POST; Refused, Created, Observed and Blocks
--   are about them.
-- - Nsdl: parts of source/m2mnsdlinterface.cpp. Nsdl/Find searches for the node of a path or a
--   token, Nsdl/Create makes an object known to nsdl-c, Nsdl/Replies takes the server's replies to
--   the client's own requests. Order, Announced and Renewal are about them.
--
-- How they interact: the client's interface gets the object instances from the application; a
-- request's payload goes through the TLV deserialiser into an object instance, and a response's
-- through the serialiser; a value that changes tells its own report handler, and those of its
-- resource, object instance and object as their levels of observation say; what a handler sends goes
-- to the observation handler of the object.
--
-- State and operations: a class is a record of its members, an operation a function from the state
-- before to the state after, with the result beside it. What the code asks of others (timers,
-- observers, the connection) is recorded in a list of calls or messages, the latest first. Numbers
-- of w bits are natural numbers with `% 2 ^ w` where the source can wrap. The C library, nsdl-c and
-- `float` are parameters: the records `Platform`, `Float` and `Coap` (what nsdl-c builds of a
-- response), and the arguments `atoi`, `atol`, `malloc` and `put_resource`. For the client's interface
-- the nsdl interface is one too: the record `Nsdl` holds its answers with what it calls back before
-- it returns. The application's functions are
-- opaque: that one is to be called is a flag or an entry of a list.
--
-- An object instance has two forms: the nodes with paths, levels and report handlers, and the values
-- that the TLV codec reads and writes. A handler of a request with TLVs has both side by side, and
-- the reports that the deserialiser's writes cause are not composed with it.
--
-- Bounds and fuel: the loops of the deserialiser are recursive calls in the source that advance the
-- offset by a TLV. They run here on one more than the number of bytes in the array, because each
-- TLV takes two bytes at least and none starts behind the end. Their offsets do not wrap: a
-- payload has fewer than 2 ^ 16 bytes, so an offset stays below 2 ^ 16 + 6 + 2 ^ 24. A read behind
-- the array is the result `out_of_bounds`. `itoa_c` has fuel for the 19 digits of an int64_t. The
-- search for a free number of an object instance runs on the 65536 numbers that it tries, and
-- `remove_callbacks` on the size of the vector. The reader of a query's options has fuel for its
-- characters. A dereference of NULL is the result `none` of a handler, and so are, of a query, a
-- write behind the arrays of an option and one behind the rows of `query_options`.
--
-- The build's numbers are the record `Config` of the client's interface. The count of retries is kept
-- modulo 2 ^ 8, and a timer's interval is the product of `int`s that is passed as a uint64_t, modulo
-- 2 ^ 32 with its sign, as two's complement has it. `IsBuild` says of a build that it allows one
-- retry at least, that the number of them fits into a byte, and that no interval leaves an `int`.
-- `Float` has the conversions of an int to `float` and back, because a query that is refused takes
-- the periods through it.
--
-- Not modelled: the rest of the nsdl interface, which gives a request to its node, sends
-- notifications and updates and serves the bootstrap; the standard objects; the factory; the
-- constructors from static parameters; the sending of a delayed response; the memory management,
-- reference counts and logs.
pub mod Common
pub mod Text
pub mod Tlv
pub mod Report
pub mod Interface
pub mod Buffer
pub mod Block
pub mod Vector
pub mod Storage
pub mod Objects
pub mod Requests
pub mod Nsdl
