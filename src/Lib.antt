-- ===== src/Lib.antt =====
-- LangStream translates a telephone call while it is spoken: the audio of each side goes through
-- speech recognition, translation and synthesis and comes out on the other side. This library models
-- the parts of the Go program that carry its logic and proves what makes them correct.
--
-- How the parts interact. Audio comes in as RTP packets; `Inbound` gathers them to payloads that are
-- pushed into a session. A session has two legs, one for each direction, and `Session` is one of them:
-- it keeps the raw audio of the utterance in the buffer of `Fallback`, waits for a final transcript,
-- has it translated and synthesized, and plays the raw audio instead when a backend does not work or
-- the leg is degraded. It counts all this in the recorder of `Metrics`. Synthesized audio goes through
-- `Pacer` into a `Jitter` buffer and out on a ticker. `Client` holds the clients of the vendors, which
-- try a request again as `Backoff` says and protect themselves with `Breaker`; the Cartesia one speaks
-- through `Websocket`; `Recognizer` and `Sarvam` hold those of speech recognition. `Registry` finds a
-- backend by its name and `Command` builds a session of backends so found. `Duplex` bridges a session
-- to two RTP legs; in the WebRTC gateway `Rooms` brings the two sides of a call together and `Peer`
-- carries one browser's audio. `Quality` measures transcripts and translations.
--
-- Which file models what:
--   Breaker    pkg/asr/circuitbreaker.go: circuitBreaker; Breaker/Phases is the machine of three phases
--              that it refines, Breaker/Trips and Breaker/Probes say when it opens and whom it lets in
--   Alaw       pkg/webrtcgw/alaw.go: alawDecodeByte, alawEncodeSample and the conversions
--   Jitter     pkg/rtp/jitter.go: JitterBuffer; Jitter/Seq and Jitter/Deadline are its arithmetic,
--              Jitter/Buffered the packets as a map, Jitter/Invariant and Jitter/Run the sequences of
--              calls, Jitter/Accounts the counters, Jitter/Capacity a full buffer, Jitter/Fifo the
--              buffer as a queue
--   Inbound    pkg/webrtcgw/inbound_buffer.go: inboundBuffer
--   Pacer      pkg/rtp/duplex.go: feedTTSPacer and runTTSPacer; Pcm: int16PCMToBytes, pcmBytesToInt16
--   Vad        pkg/langstream/vad.go: VAD, UtteranceBoundaryTracker
--   Backoff    pkg/asr/backoff.go, and the copies in pkg/translate/backoff.go, pkg/tts/backoff.go
--   Fallback   pkg/langstream/fallback.go: FallbackConfig, audioRingBuffer, legState,
--              buildPassthroughChunks
--   Metrics    pkg/observability/metrics.go: the samples, the event counters and the costs of
--              LatencyRecorder
--   Leg        pkg/langstream/session.go: the state of a leg, its environment, and how it sends audio
--              and records failures
--   Session    pkg/langstream/session.go: runLeg, drainDeadLeg and their branches; Session/Run is the
--              life of a leg, Session/Kept with its Events what its events keep, and Session/Degraded,
--              Session/Failures (with Session/Failing, one transcript), Session/Heard and Session/DeadLeg
--              its properties. Session/Start is validate and NewSession, Session/Both the two legs over
--              the shared recorder, and Session/Shutdown is Close among the legs
--   Personas   pkg/langstream/personas.go: PersonaManager
--   Client     the retry loop and the breaker around it, in pkg/translate and pkg/tts; Client/Lost,
--              Client/Retry and Client/Settled say what they come to. Client/Sse is the event stream
--              of the translators, Client/Translate what they share, Client/Gpt4o
--              pkg/translate/gpt4o.go and Client/Gemini pkg/translate/gemini.go; Client/Synthesize is
--              what the synthesizers share, Client/Cartesia pkg/tts/cartesia.go and Client/ElevenLabs pkg/tts/elevenlabs.go
--   Recognizer the sessions of pkg/asr/deepgram.go and pkg/asr/sarvam.go; Recognizer/Shared is a
--              recognizer with all its sessions, Recognizer/Reconnects counts their dials,
--              Recognizer/Settled says what they tell the shared breaker and Recognizer/Probed which
--              of them is its probe; Recognizer/Languages is StartStream's choice of a language, Recognizer/Messages Deepgram's handleMessage
--   Sarvam     pkg/asr/sarvam.go: pcm16MonoToWAV with its reader in Sarvam/Wav, handleMessage with the
--              times of its transcripts in Sarvam/Stamps
--   Duplex     pkg/rtp/duplex.go: NewDuplexSession, Start, Stop and bridgeCleanAudio
--   Peer       pkg/webrtcgw/peer.go: the bridges of a peer, handleOffer and addICECandidate, with the
--              message loop of pkg/webrtcgw/signaling.go
--   Command    cmd/langstream/main.go and cmd/langstream/duplex.go: resolveBackend, newSession,
--              buildDuplexSession
--   Serving    the waits of cmd/langstream: serveDashboard, runServeWithContext, runDuplexWithContext,
--              serveWebRTC
--   Websocket  pkg/tts/cartesia_ws.go: writeWSFrame, readWSFrame, readWSMessage; Websocket/Frames is
--              the codec, Websocket/Messages whole messages, Websocket/Termination the end of the loop
--   Room       pkg/webrtcgw/room.go: Room and what is done under its lock
--   Rooms      pkg/webrtcgw/room.go: Manager; Rooms/Capacity counts the rooms, Rooms/Slots
--              follows a peer, Rooms/Teardown the end of a room
--   Registry   pkg/langstream/backends.go: backendRegistry
--   Quality    pkg/qa/wer.go and pkg/qa/bleu.go; Quality/Scripts is the table against edit scripts,
--              Quality/Overlap the n-grams
--   Audio      the values of pkg/asr/interface.go, pkg/translate/interface.go, pkg/tts/interface.go
--   Floats     float64, a parameter of what uses it
--   Prelude    shared names, integers over the native numbers, lists, machine words
--   Examples   tests
--
-- How it is modelled. A method with a mutex is one step on a record, and what runs at once is a
-- sequence of such steps in any order. Times are numbers of nanoseconds, the clock is an argument, and
-- so is what the backends answer: the environment of each event of a leg. Numbers wrap where the code
-- counts on it (uint16 sequence numbers, the int64 shift and sum of the backoff, int16 samples,
-- uint32 sizes); the int64 and
-- int32 counters do not wrap here. Three functions are on fuel. The loop of a tick in `Pacer`: each
-- round but the last consumes one of the payloads that are pushed and not consumed, and their number
-- is the fuel. The loop of readWSMessage in `Websocket`: each frame takes two bytes or more, and more
-- fuel than there are bytes is enough. The pieces of a chunk in `Peer`: each takes a byte or more, and
-- the fuel is the length of the chunk. The sections of a room's methods under a lock are steps of their
-- own, so that what happens between two of them is modelled. HTTP, the WebSocket handshake, JSON and
-- base64 are parameters of `Client`.
--
-- How sessions end. `Session/Shutdown` and `Duplex` are step relations: what Close, Start or Stop does
-- between two waits is a step, and so are an event of a leg, the exit of a goroutine and the passing of
-- a timeout. An event of a leg takes no time, so that the end of the context falls between two events,
-- and what it cuts short within one is in the environment of that event.
--
-- Not modelled: the options and constructors of the clients, their URLs and keepalives and the text of
-- their prompt, the mocks, the set-up of a peer connection and the join message of the signaling, the
-- percentiles and the snapshots of the recorder. Also left out: the samples of the degrade tone, which
-- come from math.Sin; logging; flags and printing, the dashboard, the tables of voices and the corpora,
-- which are output, glue or data.
pub mod Prelude
pub mod Floats
pub mod Audio
pub mod Breaker
pub mod Backoff
pub mod Alaw
pub mod Pcm
pub mod Jitter
pub mod Inbound
pub mod Pacer
pub mod Vad
pub mod Fallback
pub mod Metrics
pub mod Personas
pub mod Websocket
pub mod Client
pub mod Recognizer
pub mod Room
pub mod Rooms
pub mod Registry
pub mod Command
pub mod Duplex
pub mod Peer
pub mod Sarvam
pub mod Serving
pub mod Quality
pub mod Leg
pub mod Session
pub mod Examples
