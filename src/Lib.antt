-- ===== src/Lib.antt =====
-- gdcc asks DCC servers how often the checksums of a mail have been reported, and reports them.
-- This is a model of the library dcc/ of the repository and of requests to the daemon and the commands in
-- cmd/gdcc, with theorems about them.
--
-- The parts, in the order in which a message passes through them:
--   * dcc/message.go splits a message into header fields and body and lists its checksums. Message
--     has splitHeadersBody (split_headers_body), parseReturnPath, parseUnixFrom, hasPrefixFold and
--     Checksums (checksums; what computeBody returns for the fields and the body is its argument, and
--     Content.Message.list_checksums is Checksums with the body pipeline in it).
--   * dcc/header.go makes the checksum of a header value: Header (str2ck).
--   * dcc/mime.go decodes the body, in buffers: Mime.Quoted (qpDecode) and Mime.Base64 (b64Decode),
--     each with the loop of decodeSum over a buffer of a given size (qp_chunks, b64_chunks). It reads
--     the MIME headers too: Mime.Context has the MIME fields of cks (dcc/cks.go) and decodersInit, and
--     Mime.Headers has mhMatch, parseMimeHdr (hdr_round is one round of its switch, hdr_loop the loop,
--     parse_mime_hdr the function) and ckMimeHdr.
--   * dcc/cks.go and dcc/mime.go put the decoders and the checksums of a body together: Content has
--     decodeSum (decode_sum), newCks and the end of computeBody, Content.Multipart the walk of
--     ckBodyMultipart in dcc/mime_multipart.go (walk_round, walk_loop), ckBody and computeBody, and
--     Content.Message the header fields before the body. The indices sum and cmp of the walk are the
--     bytes that wait between them and the bytes that are left.
--   * dcc/body.go makes the exact checksum of the body: Body (bodyState as BodyState, emit, body0,
--     final). A loop over a chunk is recursion on its bytes, one step on a byte is body_step.
--   * dcc/cref.go, dcc/cref_lookup.go and dcc/cref_table.go decode HTML character references: Cref
--     (step, lookup_cref) and Cref.Table (crefTbl).
--   * dcc/fuz1.go makes the checksum of the letters of a body: Fuz1 has the lines (fuz1_round is one
--     round of fuz1, which runs two rounds at most for a byte), Fuz1.Url the machine that reads URLs
--     (ck_url_step) and Fuz1.Puny punyencode of dcc/puny.go, on the state in Fuz1.State. Content.First
--     puts it into the context.
--   * dcc/fuz2.go makes the checksum of the dictionary words of a body: Fuz2, with the state and the
--     lookup of dcc/fuz2_tables.go in Fuz2.State, the tables of dcc/cset_tables.go in Fuz2.Charset,
--     final in Fuz2.Final and decodeWordBlob in Fuz2.Blob. A round of its loops either reads the byte
--     or leaves it, and the dictionaries, which are embedded files, are a parameter.
--   * dcc/sum.go has the types and the printed form of checksums: CkType, with the labels in
--     CkType.Label, and Sum.
--   * dcc/proto.go builds, signs, verifies and parses packets: Proto.
--   * dcc/client.go asks servers: Client has the settings, identifiers and buildResult, and
--     Client.Exchange has readAnswer, exchange, send and parallelQuery, and Client.Cache has the
--     cache of resolved addresses (resolve, invalidateAddr).
--   * dcc/identity.go keeps the client's id and password in a file: Identity has ParseIdentityFile
--     (parse_identity), ResolveIdentity and idOfLine, Identity.Write the lines that WriteIdentityFile
--     writes (write_identity), and Identity.Decimal the printed numbers. Text is in ASCII.
--   * dcc/result.go draws the verdict from the counts: Result.
--   * cmd/gdcc/serve.go and metrics.go answer requests: Serve has checkHandler and reportHandler behind
--     auth and gate, with the counters, on the interface Backend, which has the calls of a client that
--     they use; Serve.Latency has the histogram of observe. cmd/gdcc/main.go has the commands check
--     and report: Command, and register.go saves an identity: Command.Register.
--
-- A byte is a number below 256 and a slice of bytes a list of numbers; the words of the protocol and
-- of base64 keep their wrap-around, and Go's int counters, which no message can make overflow, are
-- numbers without bound. A float64 of the histogram is a value of any type with a comparison and a sum.
-- MD5 is a parameter, a function on the bytes written: Hash. Where a theorem needs its length, it is a
-- hypothesis. A slice that two values share is never written through both, so that
-- slices are values. A read outside a slice, where Go panics, is written out in the two lookups: a
-- theorem excludes it for the table of Cref, and in a dictionary that is cut short, which Fuz2.State
-- takes as it is, the word counts as not found.
--
-- The loops of the decoders over a buffer run on fuel: qp_fuel is above the measure of an input, and
-- the length of the input and one more suffices for base64, as the theorems on the chunks show. The
-- loops of fuz2 take at most 4 rounds on a byte, as the theorem on them shows. The loops of
-- split_headers_body and of the lookups read a byte at least in every round, and their fuel is the
-- length of what they read.
--
-- The clock, the sockets and cancellation appear as what a call finds: Client.Exchange.Xmit is one
-- transmission, with the datagrams read behind it and what ends the wait, and Attempt is one server.
-- The servers of a query finish in any order: World.order.
-- Client.EndToEnd puts the theorems on these parts together for a call of send.
--
-- The loop of parseMimeHdr runs on ten rounds for a byte and ten more, and the walk of
-- ckBodyMultipart on two rounds for a byte and two more; both return Option, and the theorems on them
-- show that they end. Where hdr_loop has a result, hdr_run is that result.
--
-- Content takes the first fuzzy checksum as the record FuzzySum of its operations. Where
-- dcc/fuz1.go takes a slice or an index out of range, which makes Go panic, the state in Fuz1.State
-- has the flag panicked from there on, and Content.Message.list_checksums gives that panic instead
-- of a list; what the state is behind a panic has no meaning for Go. The buffer of host names,
-- domsBuf, has no such flag. The state in Fuz2.State has such a flag for the arrays of the word and
-- the tag. The loops of punyencode run on fuel that its digits and characters bound.
--
-- Not modelled: the log of the client, the reading and atomic writing of the identity file, and of the
-- commands the flags, the environment, parseServers, the listeners with safetyCheck, the text of
-- /metrics and cksum. They are input and output, or texts of addresses that the standard library
-- parses.
--
-- Base has the names and lemmas that the modules share, and Tests has runs at concrete inputs.
pub mod Base
pub mod Body
pub mod CkType
pub mod Client
pub mod Command
pub mod Content
pub mod Cref
pub mod Fuz1
pub mod Fuz2
pub mod Hash
pub mod Header
pub mod Identity
pub mod Message
pub mod Mime
pub mod Proto
pub mod Result
pub mod Serve
pub mod Sum
pub mod Tests
