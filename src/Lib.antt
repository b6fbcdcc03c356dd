-- ===== src/Lib.antt =====
-- A model of go-moa, the server of the MOA remote-call protocol, and the theorems about it. Paths
-- are from the repository's root.
--
-- The program. An application (application.go) loads its options (option.go), publishes its services
-- in a registry through the config center (registry.go; registry_file.go for a local file,
-- registry_zk.go and zk.go for ZooKeeper), and serves packets (moa_codec.go): a request goes from
-- the dispatcher to the invocation handler (proxy.go), which finds the service and the method,
-- decodes the arguments, calls the method by reflection and answers with a code of code_enum.go,
-- while the statistics (stat.go) count what happens.
--
-- The files.
-- - Base and the modules below it: Go strings as lists of bytes (Text), the functions of strings,
--   bytes and sort that the program calls, maps with string keys as association lists (Assoc),
--   signed integers (ℤ), tests on numbers, families indexed by numbers (Base/Family), the UTF-8 of
--   literals (Base/Utf8). `to_lower` changes the ASCII letters and leaves other bytes.
-- - Protocol: the codes and messages of code_enum.go, the packets of moa_codec.go.
-- - Context: AttachMoaProperty, DetachMoaProperty, GetMoaProperty, GetSpanCtx and WithSpanCtx of
--   moa_codec.go. Maps are shared by reference, so they stand in a store, and a context is what it
--   holds under "moa.props". Context/Laws has the proofs.
-- - Registry: ServiceMeta of proxy.go and the constants of registry.go. Registry/Uri is
--   BuildServiceUri and UnwrapServiceUri, with proofs in Registry/Uri/Laws; Registry/Uri/Keys has
--   the keys as a set, where a quotient forgets whether no group or the group "*" was given.
--   Registry/File is registry_file.go: the loops of NewFileRegistry, PullChildrenData and
--   GetService; the file's text and the YAML parser are arguments. Registry/File/Index says what the
--   index holds, and Registry/File/Lookup what GetService answers.
-- - Zookeeper: the session of ZooKeeper as a parameter (Conn: a state, and calls that give a result
--   and the next state), and NewZKManager, CreateNode and RegisteWatcher of zk.go.
-- - Registry/Zk: registry_zk.go over such a session, with RegisteService, UnRegisteService and
--   PullChildrenData; Registry/Zk/Index has the index (NewZkRegistry, GetService, NodeChange,
--   OnSessionExpired, Destroy) and Registry/Zk/Events listenEvent of zk.go, an event at a time.
--   Registry/Zk/Session says what a connected session does to its nodes; Registry/Zk/Register is
--   about registrations under it (Registry/Zk/Register/Anew where the path may not be there yet),
--   Registry/Zk/Create about CreateNode (Registry/Zk/Paths has its paths), Registry/Zk/Index/Changes
--   about NodeChange, Registry/Zk/Index/Opened about the registry that NewZkRegistry returns,
--   Registry/Zk/Events/Lost about the expiry of a session, Registry/Zk/Events/Client about the loop of a client (Registry/Zk/Events/Heard has one
--   of its rounds, Registry/Zk/Index/Keys the keys of paths). A Go map that is ranged over is its
--   entries in the order of insertion.
-- - Registry/Center: ConfigCenter of registry.go over IRegistry, a record of the registry's calls;
--   `calls` is that record for the registry that NewConfigCenter makes (Backing: in ZooKeeper, of a
--   file, or nil for another scheme). Registry/Center/Contract is what a center expects of a
--   registry that publishes, Registry/Center/Publish what it does over one, and Registry/Center/OnZk
--   is about the registry in ZooKeeper as one (Registry/Center/Open has the nodes that this is
--   about). The file registry's RegisteService does nothing.
-- - Stat: stat.go. Its flows (turbo) and metrics (prometheus) are the parameter Meters. A round of
--   StartLog's loop is `tick`; `start_log` runs rounds, with what panics in them. Stat/Accounting
--   has the proofs, for flows with the documented behaviour CountsChanges.
-- - Proxy: the types of proxy.go. A Go value is an element of a type `V`, and reflection, the
--   methods of the services and json.Marshal are parameters (Reflect, MethodDecl, Conformance,
--   Service.method_by_name); IsNil is a test with three outcomes (NilTest), since reflect panics on a
--   value of a type that has no nil. Proxy/Build is NewInvocationHandler, Proxy/Trace the tracing of Invoke,
--   and Proxy/Invoke is Invoke and invoke, one function for each part: `dispatch` for the body,
--   `recovered` and `deferred` for the deferred function, `handle` for the call behind the tracing;
--   Proxy/Invoke/Accounting is about what it counts, Replies and Verdict about what it answers.
--   A call's duration is an argument. Proxy/Listing is ListInvokes. There the calls come one after
--   the other. Proxy/Concurrent is the counting of Invoke by many goroutines at once: a step is one
--   call of a sync.Map, which is atomic, or one increment of a flow, and the timer's Delete may come
--   in between. Proxy/Concurrent/Owned, NewClient, NewFlow, OneMore and Turns say what a step does
--   to the maps and flows, Exact what holds in all states, Schedule what a given order of steps
--   leads to, and Sequential compares it with one call after the other.
-- - Config: the types of option.go. Config/Load is LoadConfiguration, with its defaults in
--   Config/Load/Defaults, and InitClientOption; Config/Address is InitServerOption, where
--   Config/Address/Choice is about the host that is bound and Config/Address/Server about the whole
--   function. The file, the parser, the interfaces and the matching of expressions are arguments.
-- - Dispatcher: dis of application.go. `dis` gives the actions that it asks of the connection and
--   the pool, in their order; `run_job` is the function that it queues, and `written` what reaches
--   the client when the job runs. Times are int64 with their wrap-around. Dispatcher/Carried says
--   what a request packet makes dis do, Dispatcher/Expiry and Dispatcher/Deadline when a request is
--   dropped, Dispatcher/Requests and Dispatcher/Replies what is written, and Dispatcher/Due how many
--   packets its actions come to.
-- - Codec: BinaryCodec of moa_codec.go, Compress, Decompress, Wrap2MoaRawRequest and
--   Wrap2MoaRawResponse. JSON and snappy are the parameters Json and Snappy; Codec/Laws (IsJson) and
--   Codec/Buffers (IsSnappy) say what is relied on in them. Codec/Buffers is about the buffers and
--   compressed bodies, Codec/Responses about what a client reads of a response, Codec/Arrival about
--   a request from its frame to the dispatcher.
-- - Application/Start: initApplication of application.go, step by step, with the panic that ends a
--   start as a value (Stage); World is what it gets from outside; Application/Start/Setup has what
--   is set up of the options (the tracer, the settings of the server). Application/Start/Prepared is
--   about the services that it prepares, Application/Start/Serving about a start that returns,
--   Application/Start/Success about one that publishes in ZooKeeper (Registry/Center/Fresh has its
--   center), and Application/Answers about the requests that the started application gets.
--   Application/Start/Window is the server while it starts: packets arrive and calls run between its
--   listening and the making of its handler (Completed: against a server that has its handler from
--   the beginning; Answers: how often a packet is answered).
-- - Application/Wire: a call of a started application from the frame of its request to the body of
--   the answer, through the codec, the dispatcher and the handler.
-- - Application/Purge: the timer of initApplication and its round, over sort.Strings and
--   sort.SearchStrings (Base/Sorting, Base/Search). Application/Purge/Laws says what it does to the
--   counts of calls, Application/Purge/AfterBuild when it panics; Proxy/Build/Held is about the maps
--   of calls that NewInvocationHandler makes.
-- - Application/Shutdown: DestroyApplication, with proofs in Application/Shutdown/Order. The
--   statistics that it looks at in each round are an argument.
-- - Application/Pages: ServeHTTP and the response writer of net/http, whose first status fixes
--   the headers to be sent, and whose body gives the content type where they have none. Application/Pages/Routes is about the routes,
--   Application/Pages/Headers about the headers. Application/Pages/Listen is the goroutine that
--   serves the pages at a second port and the default mux of net/http (Patterns: what its loop
--   registers; Served: what it comes to). Application/Pages/Template is the template of the index
--   page. JSON, whether the template's execution fails and the form of a request are arguments.
-- - Tests: runs at concrete inputs, and each theorem below at an input.
--
-- Loops are recursions on the lists that they run over. Fuel stands in two functions. `format_nat`,
-- the %d of a message, has the number itself plus one, and a number has no more digits than that.
-- The binary search of Base/Search has the length of the slice, and each round halves the range
-- (`search_in-IsFirst`). The loop of DestroyApplication recurs on the nine rounds that are left.
--
-- Not modelled: log lines, the network server and its goroutines, the redirects of net/http's mux,
-- the registry of the metrics but for the flag that they stand in it. The timeout that turbo's
-- pool puts on a queued call, and the lock of the ZooKeeper registry's index.
pub mod Base
pub mod Registry
pub mod Protocol
pub mod Application
pub mod Codec
pub mod Config
pub mod Context
pub mod Stat
pub mod Proxy
pub mod Zookeeper
pub mod Dispatcher
pub mod Tests
