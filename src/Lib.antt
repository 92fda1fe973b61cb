-- ===== src/Lib.antt =====
-- The core of slixmpp-go, an XMPP library in Go: what the package in xmpp/, the first of xep/ and
-- the store of omemo/ make of texts, XML nodes, stanzas, connections, plugins, events, handlers,
-- forms, rooms and devices, as functions that can be run, with the theorems that make them
-- correct.
--
-- The parts, and how they meet. A client reads XML elements (xmpp/node.go) from its stream, turns
-- each into a stanza (xmpp/stanza.go), asks the matchers (xmpp/matcher.go) of the registered
-- handlers (xmpp/handler.go) which of them want it, and calls those in order of priority.
-- Addresses are JIDs (xmpp/jid.go). Plugins (xmpp/plugin.go) are loaded with their dependencies
-- before them and tell the rest of the program by events (xmpp/events.go); internal operations are
-- found in a registry of their own (xmpp/api_registry.go).
--
-- Jid models xmpp/jid.go: parse_jid is ParseJID, to_string is String, bare is Bare; Jid/Escape has
-- EscapeLocal and UnescapeLocal, Jid/RoundTrip and Jid/Reparse the theorems. bare_jid_string is
-- BareJIDString of xmpp/stanza.go.
--
-- Node models xmpp/node.go. A node is a name, attributes and parts; a part is a text or a child
-- (which keeps the text field that Go's struct has beside the pointer). Node/Tokens has
-- MarshalXML, UnmarshalXML and ParseNode on the tokens that pass between them and encoding/xml.
-- The reader's recursion runs on fuel, one more than the number of tokens left; each round takes a
-- token, and the round trip shows that this is enough for what the writer makes. Node/Tokens/Wire
-- puts the text of encoding/xml between the two: its encoder and decoder are a parameter, of which
-- the theorems use that a namespace is written as the attribute xmlns, which the decoder gives
-- back, and that an element without a namespace is read with the one around it.
--
-- Stanza models xmpp/stanza.go and the stanza error of xmpp/errors.go; Stanza/Tokens has the three
-- MarshalXML methods and ParseStanza on tokens, Stanza/ErrorLaws, Stanza/ErrorWire,
-- Stanza/IqElement and Stanza/IqLaws the theorems. strconv.Atoi and strconv.Itoa are parameters.
--
-- Plugin models xmpp/plugin.go. Use calls Load for each dependency and Load calls Use; use_plugin
-- has fuel for that nesting, and Plugin/Fuel shows that two more than the number of factories is
-- enough. Init, Shutdown and the event handlers are functions on the rest of the state, and are
-- taken not to call the manager. Plugin/Lifecycle has Get, Names, Features and shutdown.
--
-- Events models xmpp/events.go, Handlers models xmpp/handler.go, ApiRegistry models
-- xmpp/api_registry.go and Matchers models xmpp/matcher.go; Events/Delivery says what Emit calls,
-- Matchers/Payload what MatchPayload matches. The counters of the ids are 64 bits wide, and their
-- wrap-around is written out.
--
-- Roster models xmpp/roster.go: the cache, Get, handlePush and the elements of items. What the
-- client does for it is a parameter.
--
-- Config models xmpp/config.go. Transport has the connection under a client (writeRaw,
-- readTopLevelNode and openAndReadFeatures of xmpp/client.go): the peer is a script of the tokens
-- that the decoder will give, before and behind a TLS handshake, and of how many writes succeed,
-- so a theorem holds for any peer, and the loops over tokens end with the script. Connect has the
-- steps of Connect and syncIQ over it, Connect/Negotiate puts them together with connectComponent
-- of xmpp/component.go; a step returns its error beside the client that it leaves. Connect/Secured
-- compares two ways to authenticate, Connect/Outcome says how the client is left, Connect/Sync
-- joins the loop of syncIQ with the reader. Close and finish act on the flags closing and
-- doneOnce; what readLoop's goroutine and the subscribers of connected and session_start do to the
-- client before the first presence is a parameter. Dispatch models dispatchStanza: the code that
-- it calls, callbacks of handlers and subscribers of events, is a parameter and may change the
-- registry of handlers; Dispatch/Steps and Dispatch/Once are about the handlers that are called
-- once.
--
-- Sasl models the choice of a mechanism and the simple exchanges of xmpp/sasl.go, Sasl/Scram its
-- attributes and keys, Sasl/Exchange authSCRAM and authenticate. A xor of bytes that would run
-- past its end is none. Requests models RequestIQ and the part of readLoop that answers it: one
-- function for each, and a step relation for their interleavings.
--
-- Node/Build has the calls by which the protocols' elements are made and read, with the laws of
-- what is read back. Forms models xep/forms.go: Forms and Forms/Read are its writer and its
-- reader, Forms/Validate its Validate, Forms/Fields its Field and Set. Muc models xep/muc.go: the
-- readers and writers in Muc, Join and the two handlers in Muc/State, on the table of rooms; what
-- a handler sends to a waiting Join and to the events is a list of effects. Omemo/Store models
-- omemo/store.go and the types of omemo/types.go, with the abstract store in
-- Omemo/Store/Refinement.
--
-- Rsm models xep/rsm.go, the result sets; strconv is a parameter there too, and its law is for
-- Go's ints of 64 bits.
--
-- Common has what the parts share: lists, Go maps as association lists, results, the functions of
-- Go's package strings over native texts, stable sorting, and integers. The tables of Unicode
-- (white space, lower case, case folding) are a parameter, a record of functions; the facts about
-- lower case and white space that a theorem uses are the record IsUnicode.
--
-- Not modelled: locks (each call is one step), contexts and goroutines other than as the list of
-- the handlers that were started, error texts, the characters of XML text, sockets and timers, the
-- file of omemo's JSON store. What Close does besides its flags (the plugins' shutdown, the end
-- tag, the closing of the connection), the other extensions in xep/ and omemo's envelopes and
-- manager are not part of the model yet.
pub mod ApiRegistry
pub mod Common
pub mod Config
pub mod Connect
pub mod Dispatch
pub mod Events
pub mod Forms
pub mod Handlers
pub mod Jid
pub mod Matchers
pub mod Muc
pub mod Node
pub mod Omemo
pub mod Plugin
pub mod Requests
pub mod Roster
pub mod Rsm
pub mod Sasl
pub mod Stanza
pub mod Transport
