-- ===== src/Lib.antt =====
-- Verification library of the web frontend of mulex-fk (TypeScript, under frontend/src).
--
-- The frontend talks to the backend over one WebSocket. lib/convert.ts turns values into bytes and
-- back; lib/websocket.ts sends calls and subscriptions with such bytes, and hands replies and events
-- to the code that waits for them; lib/rdb.ts reads, writes and watches the keys of the database with
-- such calls; lib/rset.ts and lib/rmap.ts keep what the pages show; lib/globalstate.ts keeps what all
-- pages know of the backends and the run; lib/rdbtree.ts arranges keys in a tree; lib/utils.ts has
-- helpers of all of them, and components/DynamicRouter.tsx the pages of plugins. The other files under
-- components and the pages (HistoryViewer.tsx, EventsViewer.tsx, RunViewer.tsx, LogBook.tsx) turn replies and events
-- into their own state.
--
-- Files and what they model:
-- - Prelude and its children: the names that all files share, Boolean tests on numbers, lists over the
--   native numbers, signed integers, results of code that throws, the slicing loop that the source
--   writes in three places, and equality of keys as an interface (Keys.Key).
-- - Convert.Names: the type names, typeFromTypeid, typeidFromType and sizeFromType of lib/convert.ts.
-- - Convert.Engine: what convert.ts takes from the JavaScript engine, as a record of parameters
--   (UTF-8, floats, conversions between numbers and texts) and, in IsStandard, what the standards say
--   of them.
-- - Convert.Bytes: little-endian words, Uint8Array views and their `set`.
-- - Convert.Encode: fromValue, makeData, fromData, str32, str128, str512 and concatData.
--   Convert.Shorthands: int8 to bool.
-- - Convert.Decode: astype, hexdump, splitChunks and isEmpty. Convert.Unpack: unpack.
-- - Convert.Framing, Sized, Numbers, Texts, Concat, Tables, Unpack.Ending and Unpack.Stuck: proofs about
--   these.
-- - Stores.Sets, Stores.Maps: createSetStore (lib/rset.ts) and createMapStore (lib/rmap.ts), with the
--   lists of their entries in the order of insertion; Stores.SetLaws and MapLaws: proofs.
-- - Socket.State: the fields of MxWebsocket in lib/websocket.ts, and the effects seen from outside.
--   Socket.Messages: make_rpc_message and make_evt_message. Socket.Handlers: the constructor, rpc_call,
--   subscribe, unsubscribe, when_ready, on_connection_change, close, and the callbacks onopen,
--   onmessage, onclose and the timer of onclose. Socket.Runs: the turns of a browser's event loop.
--   Socket.Counting, Ids, Promises, Settling, Replies and Modes: proofs.
-- - Utils.Arrays, Times, Units: array_chunkify, concat_bytes, timestamp_tohms, event_io_extract and
--   bps_get_multiplier of lib/utils.ts. Utils.Routes: the table of components/DynamicRouter.tsx.
--   Utils.Trees: MxRdbTree of lib/rdbtree.ts; Utils.TreeKeys: proofs about it.
-- - Utils.Texts: operations on strings, and extract_backend_name of lib/utils.ts.
-- - Calls.Jobs: async functions as the calls that they await, with the state that they share;
--   Calls.Servers: what such a function comes to against a server that is a parameter. Calls.Keeping,
--   Invariants and Known: proofs about runs. Calls.OverSocket: such a function over rpc_call and
--   onmessage of Socket.Handlers; Calls.Exchanged and Composed: proofs about it.
-- - Rdb.Access: the methods of MxRdb in lib/rdb.ts; Rdb.Watching: what its callback makes of a frame;
--   Rdb.Caching, Unknown and RoundTrip: proofs, the last over IsDatabase, what the server promises. Rdb.Shown:
--   RdbKeyDisplay of RdbViewer.tsx. Rdb.Created: its dialogs and statistics. Rdb.Leaked: proofs.
-- - History.Plot: the data of HistoryPlot in HistoryViewer.tsx. History.Selection: its form for a new
--   display. History.Stored: loadEntries and saveEntries, and the keys that HistoryPlotRDBSearcher
--   lists. History.Agreement: proofs.
-- - Upload.Sending: uploadFiles of components/FileDropUpload.tsx. Upload.Dropping: checkExtension,
--   checkSize and onDrop. Upload.Whole, Extensions and Chosen: proofs.
-- - Clients.Table: addClient, removeClient and the handlers of components/ClientsTable.tsx.
--   Clients.Finding and Connected: proofs.
-- - Events.Statistics: readEventStatistics, computeClientsIO, checkSystemEvent and getters of
--   EventsViewer.tsx. Events.Capture: modifyCapture, its callback and eventGotNewFrame. Events.Rows,
--   Polls and Kept: proofs.
-- - Logs.Provider: LogProvider of components/LogTable.tsx. Logs.Bounds and Order: proofs.
-- - Global.State, Backends, Status: the stores and functions of lib/globalstate.ts. Global.Told
--   and Named: proofs. Global.Commands: start_backend, stop_backend and delete_backend of BackendViewer.tsx.
-- - Runs.Files: changeDisplayMode, setupTable and updateLogsPage of RunViewer.tsx. Runs.Download:
--   downloadFile. Runs.Latest and Received: proofs.
-- - Book.Drafts: deleteFile, onDrop, loadDraft and deleteDraft of LogBook.tsx. Book.Posts: addPost,
--   deletePost, fetchExtension and modifyBodyFilePaths. Book.Context: the context, the pages of posts
--   and the search. Book.Reading: onPostClick and deletePosts. Book.Attachments: uploadFile.
--   Book.Publishing: post. Book.Comments: the comments of a post with their authors. Book.Ids, Kept,
--   Deleting, Deleted and Posted: proofs.
-- - Graph.Edges, Drawing: DiGraph, and DiNode and DiEdge, of components/DiGraph.tsx. Graph.Lookup, Drawn
--   and Followed: proofs.
-- - Users.Meta: MxUserMetadata of lib/usermeta.ts. Users.Accounts: the handlers of Dashboard.tsx.
--   Users.Stored and Forms: proofs, the first over IsMetaStore, what the server promises.
-- - Plugins.Rpc: setupCalls of lib/rpc.ts. Plugins.Registry: lib/plugin.tsx.
-- - Search.Bar: getFilteredItems and SearchBarServerSide of components/SearchBar.tsx. Search.Lost:
--   proofs.
-- - Tests: runs on concrete inputs.
--
-- How the code is modelled. A Number is an integer or an opaque float. A `data` field is a view of a
-- buffer that may be larger, since astype and unpack read the buffer behind it. An `await` splits a
-- method: what follows it is a Waiter, kept in waiting_p, moved to `resumed` by onopen, and run by a
-- turn of its own before the next task of the socket. The program's calls may come at any time,
-- callbacks included; the server may send anything. A Promise is the number under which it was made,
-- and the resolution or rejection of it an effect. What a JSON text says is its object. Above the
-- connection an async function is a Job: run takes it alone, against a server with a state of its
-- own. Handlers that wait for nothing, or for one reply, are functions on the state, and take the
-- rows that unpack gives. What the setter of a store of solid-js makes of the old value of a property and
-- the new one, an instance of a class or an object literal, is a parameter of set_backends. A map from keys that are hexadecimal texts of ids is one from
-- the ids.
--
-- Fuel. array_chunkify, splitChunks and the loop of make_rpc_message have fuel for one round for each
-- element and one more; chunk_loop_total of Prelude.Chunks shows that it is enough for a positive
-- size. unpack takes its fuel as an argument, and `running` is what it gives when that runs out.
--
-- The upload has fuel for one round for each byte and one more; downloadFile takes its fuel as an
-- argument, since its loop goes on for as long as the server says, and `none` is no result.
--
-- The numbers of DiGraph.tsx are a parameter with the operations that it uses; JSON.parse and
-- JSON.stringify, isNaN and a text for each output of astype are parameters where they are used.
--
-- Not modelled: event.ts and msg.ts under lib; Project.tsx, Home.tsx and the other pages; the other
-- tables under components; plug/plugin.tsx, which only shows the widgets. Of the files above: print_tree
-- of lib/rdbtree.ts, which only logs; the database links in the
-- body of a post and the modes of its editor in LogBook.tsx; the avatar, the logout and the popups of
-- Dashboard.tsx; the list of keys of RdbViewer.tsx; fetch_client_name of lib/globalstate.ts; timers that
-- refresh a display, console messages, and toasts but those of Book.Context and Global.Commands. JSX and
-- styles, components/ui, drawing libraries, dates in a locale, colours, the DOM, and the C++ and Python
-- backend.
pub mod Prelude
pub mod Convert
pub mod Stores
pub mod Socket
pub mod Utils
pub mod Tests
pub mod Calls
pub mod Rdb
pub mod History
pub mod Upload
pub mod Clients
pub mod Events
pub mod Logs
pub mod Global
pub mod Runs
pub mod Book
pub mod Search
pub mod Graph
pub mod Users
pub mod Plugins
