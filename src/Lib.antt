-- ===== src/Lib.antt =====
-- A model of the MQTT broker github.com/aixj1984/mqtt-server: its wire codec, its flow control and its topics.
--
-- The broker reads packets off connections, decodes them (package packets), keeps sessions, topic
-- subscriptions and in-flight messages (package mqtt, in the root folder), and asks hooks for
-- permission and storage. What the broker computes on its own data is modelled by functions; locks
-- are modelled by giving each locked method the whole state. Bytes, uint16 and uint32 are natural
-- numbers with the wrap-around written out, int32 and int64 values that may be negative are integers,
-- a string or a slice of bytes is a list of bytes, and a map is an association list whose order
-- stands for the order of a range loop.
--
-- Prelude        tests, lists, bit operations as arithmetic, Go's maps, signed integers.
-- Packets.Codes  packets/codes.go: the reason codes, and results with an error code.
-- Packets.Codec  packets/codec.go: the primitive encoders and decoders. encodeLength recurs on fuel:
--                nine rounds, one for each seven bits of an int64 that is not negative, as lengths
--                never are in the callers. utf8.Valid of Go's library is written out as a state
--                machine.
-- Packets.Header packets/fixedheader.go: FixedHeader.Encode and Decode.
-- Packets.Types, Packets.Properties, Packets.Packet
--                packets/packets.go and packets/properties.go: the packet types, the structs with all
--                their fields, their copies, and a subscription's merge and options byte. The map of
--                identifiers that Merge writes is a value; the source may share it between copies.
-- Packets.Properties.Valid, Encode, Decode
--                packets/properties.go: the identifiers, validPacketProperties, Encode and Decode. The
--                loop of Decode recurs on fuel, one round for each byte that the length counts, since
--                each round reads at least the identifier. Properties.Items is the abstract view: a list
--                of properties on the wire, and Arriving says which fields of a struct arrive.
-- Packets.Packet.Frame, Publish, Connect, Subscribe, Answers
--                packets/packets.go: the encoders, decoders and validators of every packet type. An
--                encoder gets its buffer as a list and returns the longer one; a decoder returns the
--                packet or the error alone. Errors that wrap another are the code they wrap. The
--                loops over the filters recur on fuel, one round for each byte. An index out of range
--                is the outcome panics.
-- Inflight       inflight.go: the in-flight map and the quotas, every method. The time is an argument.
--                sort.Slice leaves the order of equal keys open; the model keeps their order.
--                Clone and ReconcileSendQuotaCap, which take two locks in turn, are one step each.
-- Topics.Alias   topics.go: inbound and outbound topic aliases.
-- Topics.Filter  topics.go: isolateParticle, IsSharedFilter, IsValidFilter. The loop over the levels
--                recurs on fuel, one more than the length of the filter, as it has at most one level
--                more than it has bytes. strings.EqualFold is written out for the two prefixes.
-- Topics.Trie    topics.go: the particles as a tree without parent pointers, with set, seek and trim.
-- Topics.Index   topics.go: TopicsIndex, Subscribe, Unsubscribe, their inline forms, RetainMessage and
--                Subscribers. Index/Matching says which paths match a topic.
-- Packets.Reasons
--                packets/packets.go: ReasonCodeValid.
-- Sessions.PacketId
--                clients.go: nextPacketID. Its search recurs on fuel, two rounds more than there are ids:
--                one for the overflow and one to see that the search is round.
-- Sessions.Resume
--                server.go: resumeDeferredPublishes, on fuel of one round more than there are deferred
--                messages, since each round takes one. The outcome of a write is a function.
-- Sessions.Acks  server.go: buildAck, processPuback, processPubrec, processPubrel, processPubcomp, with
--                the writes and the calls of hooks as a list of events. The two readings of the clock
--                in buildAck are one.
-- Sessions.Outgoing
--                server.go: the copy of a message that publishToClient makes, and its state.
-- Sessions.Deliver
--                server.go: publishToClient, and publishRetainedToClient in Deliver/Retained. The hooks,
--                the writes and the queue are functions and flags of a setting; other clients do not
--                act while one message is delivered.
-- Sessions.Unsubscribe
--                server.go: processUnsubscribe and UnsubscribeClient over the topic index. The hook that
--                may change the packet is a function.
-- Sessions.Receive
--                server.go: processPublish, DisconnectClient and retainMessage. The hook OnPublish is a
--                function with the outcomes that the handler tells apart, and the call of
--                publishToSubscribers is an event.
-- Sessions.Clear clients.go: ClearInflights, ResetInflights and ClearExpiredInflights.
-- Ledger         hooks/auth/ledger.go: RString.Matches, MatchTopic, AuthOk, ACLOk and Update. A map of filters
--                is read in the order of its list.
--
-- Not modelled: the rest of the clients and of the server, listeners and
-- network input and output, the storage backends, configuration files, logging, and the buffer pool,
-- whose buffers hold no state between uses.
pub mod Prelude
pub mod Packets
pub mod Inflight
pub mod Topics
pub mod Sessions
pub mod Ledger
