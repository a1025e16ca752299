-- ===== src/Lib.antt =====
-- Givemail sends mailings: it reads a message and its recipients, groups these by domain, finds
-- the mail servers of each domain and hands the messages to an SMTP library, in batches of a
-- bounded number of messages for each server.
--
-- Parts and files. The text of a name, a message or a buffer is the list of its bytes (Base.Text).
--
-- * Base and the files below it: what the others share, lists and tests on native numbers, and the
--   operations of std::string.
-- * Base64 (src/Base64.cc): base64_e and base64_d write into buffers of a given size, and an
--   access out of bounds is a fault, the outer `none`. Base64.Buffer has the lemmas on buffers,
--   Base64.Encoder what the encoder writes, Base64.Decoder what the decoder reads, and
--   Base64.RoundTrip joins them. Base64::encode and Base64::decode are `encode` and `decode`.
-- * QuotedPrintable (src/QuotedPrintable.cc): qp_encode, `encode_loop`, and
--   QuotedPrintable::encode, `encode`, with a reader of RFC 2045 in QuotedPrintable.Reader,
--   what it reads in an output in QuotedPrintable.Meaning, the lengths of lines in
--   QuotedPrintable.Lines and the size of the buffer in QuotedPrintable.Overflow.
-- * Resolver (src/Resolver.cc, ResourceRecord): MX and A records, their order and their expiry.
-- * Session (src/SMTPSession.cc): the members of a session that change are the record `Session`,
--   and a method is a function from a state to a result and the next state. Session.Route is the
--   choice of a server: initializeAddresses, initializeTopQueue, queueNextPriorityRecords,
--   setServer, discardCurrentServer, isDiscarded and cycleServers. Session.Dispatch is
--   createSession and dispatchMessages; Session.Recording is setError and recordError, with
--   eventCallback of src/LibESMTPProvider.cc, which the provider calls while startSession runs, and
--   Session.Starting what these leave of the state. Session.Safety, Session.Current,
--   Session.Priorities, Session.Batch, Session.Progress and Session.Forever have the theorems.
--   Session.Fill has the loop that fills a batch with recipients, Session.Queue the rest of
--   queueMessage and signMessage, and Session.Generate generateMessages: their theorems are in
--   Session.Mailed, Session.Queued and Session.Delivered, on the recipients that the provider is
--   given, in Session.Returns, on when queueMessage returns, and in Session.Unsent, on messages
--   without signatures.
-- * Csv (src/CSVParser.cc, and quoteColumn of src/WebAPI.cc): the reader's methods, functions of a
--   `Parser`, and the printer's quoting. Csv.Unescape and Csv.Printer say what unescapeColumn and
--   quoteColumn do to a text, Csv.Columns what nextColumn does to a line.
-- * Domains (src/DomainsMap.cc): the map of domains that are left. Domains.Turns has threads that
--   take from it in any order, from the state in which the program starts.
-- * Recipient (src/Recipient.cc): the statuses, the order and extractNameAndEmailAddress, with the
--   positions of std::string as 64-bit numbers. Recipient.Address says what it reads.
-- * Web (src/webapi-fcgi.cc): the requests of the web API. Web has the parsing of a query, of the
--   headers and of the cookie of authentication, Web.Gate the environment of a request and the
--   choice of its handler in `main`, Web.Xml processXml, Web.Carve the part of the content that it
--   parses, and Web.Auth verifyAuthentication, with Key (src/Key.cc), HMAC::sign (src/HMAC.cc) and
--   findLastRequestTime (src/DBUsageLogger.cc). Web.Params, Web.Xml.Signed,
--   Web.Auth.Verdicts, Web.Auth.Reports and Web.Auth.Replay have the theorems.
-- * Details (src/MessageDetails.cc): attachments and pieces of content of a message, and in
--   Details.Ids encodeRecipientId and createMessageId. Details.Parts has the attachments against
--   the lists that they stand for, Details.Pieces setContentPiece against the methods that read.
-- * Message (src/SMTPMessage.cc): headers, reverse path and parts of a message; Message.Headers is
--   buildHeaders and Message.Keeps what it keeps; Message.Dump and Message.Listed have the list of
--   the headers' names and the dump of the headers that a LibESMTPMessage keeps. The virtual methods
--   look at that dump to tell the classes apart.
-- * Esmtp (src/LibESMTPProvider.cc): how a message is made and handed to libesmtp. Esmtp.Content is
--   the constructor with qpEncode, Esmtp.Blocks the cases of messageDataCallback for inline parts and
--   attachments, Esmtp.Callback the other cases and getMessageData, Esmtp.Events the kinds of errors and
--   what the callback for the events of a connection leaves. Esmtp.Tree has the entities of MIME
--   that a message stands for and their print; Esmtp.Reads, Wrap, Lines, Parts, Sequence and Stream
--   are the lemmas that lead to Esmtp.Document, on what is read, Esmtp.Unopened, and Esmtp.New, on
--   new messages. Esmtp.Encoded is about qpEncode, and Esmtp.Decoded about the body of an
--   attachment.
-- * Updater (src/StatusUpdater.cc, src/DBStatusUpdater.cc, and the loop over a failed batch in
--   sendToDomain of src/givemail.cc): the statuses of recipients and the statements that record
--   them.
-- * Limits (findDomainLimits of src/ConfigurationFile.cc): the limits of domains with the servers that
--   were found. Limits.Cached says what is kept.
-- * Rounds (sendToDomain of src/givemail.cc): the rounds in which the recipients of a domain are
--   mailed, with Session, Updater and the database's answers. Rounds.Tally says when it gives up.
--
-- A session takes the records of Resolver, and reaches the clock, the name server and the SMTP
-- provider through `Outside`, functions of the log of the calls made so far; the
-- events that libesmtp tells eventCallback while it sends are among the answers. Nothing is assumed of
-- their answers but what a theorem names. A session's messages are those of Message, made from
-- Details; signing, templates and what the provider answers about a message are the fields of
-- `Mailer`.
--
-- The date parser, the database and the digest of OpenSSL are the fields of `Services`; the base64
-- of a signature is that of Base64.
--
-- Bounds and fuel. Bytes are natural numbers, and 32-bit words are written with shifts and masks
-- as divisions and remainders; data of 4 GiB or more is outside the model, as is the overflow of
-- counters and times. The loops of Csv that go from position to position run on as much fuel as
-- the text is long, which is shown to be enough for unescapeColumn and quoteColumn. The other
-- loops follow the lists they read, but for cycleServers, which runs on fuel, a step for each
-- record taken from the queue: it need not return (Session.Forever), so no fuel is enough for all
-- surroundings. Session.Progress says when it returns, and the other theorems speak of every fuel
-- that gives a result. queueMessage and generateMessages run on fuel for the same reason, and for
-- a recipient without an address, at which the loop of queueMessage stays for ever;
-- Session.Returns says when queueMessage returns. sendToDomain runs on fuel for its rounds
-- besides, and Rounds.Tally says what is enough without a provider. The loop of getMessageData runs
-- on fuel; Esmtp.Document says when some fuel is enough. The loop of qpEncode runs on as much fuel
-- as the text is long, a round for each line feed. The loops that erase bytes, in Details.Ids and
-- Session.Fill, run on as much fuel as the text is long: each round erases a byte or goes on by one.
--
-- Not modelled: the other parts of the program, which are XML, SQL, network and system calls for
-- the most part; the calls by which libesmtp's sessions are opened and started, and the provider of
-- libetpan; in the session dumps and timers, and that a provider forgets a message with its
-- session; the processing of forms and GET requests of the web API; qp_decode, which nothing
-- calls; and log output.
pub mod Base
pub mod Base64
pub mod QuotedPrintable
pub mod Resolver
pub mod Session
pub mod Csv
pub mod Domains
pub mod Recipient
pub mod Web
pub mod Details
pub mod Message
pub mod Updater
pub mod Esmtp
pub mod Rounds
pub mod Limits
