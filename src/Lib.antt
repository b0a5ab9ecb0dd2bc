-- ===== src/Lib.antt =====
-- jambonz-feature-server runs the calls of the jambonz platform: it takes a call, asks the
-- customer's application what to do over a webhook or a websocket, and carries out the verbs that
-- come back. This library models the parts of it that keep state of their own.
--
-- Every component is a record for the state of its class and a function for each of its methods,
-- named after it. A method that awaits is cut where it awaits, and what can happen meanwhile is
-- another operation; a run is a list of operations. A timer is armed or not, or is known by a
-- number, and fires only while it is armed; the time itself is an argument. What a component emits
-- or asks of the media server is a list in its state, oldest first. A call that may throw has a
-- result type that says so. Logging is left out.
--
-- Tts: lib/utils/tts-streaming-buffer.js, which buffers streamed text, cuts it into chunks and
-- sends them to a vendor. Scan has findSentenceBoundary, findWordBoundary and isWhitespace, on
-- lists of UTF-16 code units; Buffer the state and the operations but for _feedQueue, which is
-- Feed, as the parts from one await to the next; System the interleaving of feeds that wait. The
-- other modules hold proofs: Bounds and Queue on the cutting of chunks, Counted and Invariant on
-- the counter, Sending, Parts, Accepting, Moves and Order on what is sent, Termination on how long
-- a feed runs, Paired and Pressure on Pause and Resume, Respace on the spacing of blank lines. The
-- fuel of `drain` is the number of awaits, and the weight of the queue bounds it.
--
-- Dtmf: DigitBuffer is lib/tasks/dialogflow/digit-buffer.js, Collector is
-- lib/utils/dtmf-collector.js; Buffering and Matching hold their proofs.
--
-- Sticky: lib/utils/sticky-event-emitter.js over the listeners of Node's emitter, which are
-- modelled with it. Tracker: lib/session/session-tracker.js; Lookup and Refinement hold the proofs.
--
-- Requestor: Policy is _shouldRetry of lib/utils/base-requestor.js; Retry the retry loop of request
-- in lib/utils/http-requestor.js and the loop that connects in lib/utils/ws-requestor.js, with fuel
-- one more than the retries that are allowed, which is enough since every round but the last uses
-- one up. The field `backoffMs` is shared by the requests, so what it holds after an attempt is a
-- function of the environment; Socket the messages of lib/utils/ws-requestor.js that wait for an
-- ack. The far end is a function from the number of the attempt to what it does. Retrying,
-- InFlight, Settling and Abandoned hold the proofs. Line is the connection of the same file with
-- the queue of the messages that wait for it, each callback of `ws.send` an event; its fuel is the
-- number of steps of `sendQueuedMsgs`, where one more than the queue is long is enough if the
-- messages can be sent. Queueing and Muted hold the proofs on it. The making of clients and headers
-- is not modelled.
--
-- Background: lib/utils/background-task-manager.js. Making a task goes through the call session, so
-- its outcome is chosen by the environment. HookDelay: lib/utils/action-hook-delay.js, with its two
-- timers by number; State has the constructor and Timers the operations. SttLatency:
-- lib/utils/stt-latency-calculator.js, less the two fields that toFixed prints. MakeTask:
-- lib/tasks/make_task.js; validateVerb, of @jambonz/verb-specifications, is a parameter. Amd:
-- lib/utils/amd-utils.js from startDecisionTimer on, with the first alternative of a transcription;
-- toLowerCase is a parameter, and the listeners by vendor and the reason that goes with a decision
-- are left out.
--
-- Transcripts: consolidateTranscripts and compileSonioxTranscripts of
-- lib/utils/transcription-utils.js; Digits and Punctuation hold the proofs. Gather:
-- lib/tasks/gather.js. The module has the state, the timers and _resolve, Events the prompt, the
-- keys and what the timers do, Speech _onTranscription; Runs puts the events in any order.
-- Progress, Handling, Hearing and Results hold the proofs on how often it reports and that a timer
-- runs, Holding and Keys those on the digits reported, Waiting those on gathers that are left
-- without a timer or called after a kill.
--
-- Dial: the race of the legs in lib/tasks/dial.js, with the legs that are really up as a part of
-- the state that the task cannot see. A run of `_killOutdials` is cut at its await of each leg, and
-- several may be under way. Race has the events; Tracking, Legs, Orderly and Draining hold the
-- proofs that a kill leaves no leg up where one leg is accepted at most, Flaws those on a second
-- winner before the answer is propagated, Steps and Late those on a winner while the other legs are
-- being killed. `ends_of` counts the kills that come to their end, and as many as are awaited are
-- enough. Outdial: SingleDialer of lib/utils/place-outdial.js, one leg; Calls has the events,
-- Reporting and Ends the proofs.
--
-- Queues: the two verbs on a queue of callers. Dequeue is lib/tasks/dequeue.js and Member
-- lib/tasks/enqueue.js, whose handlers are in its Events; a member that is moved to another server
-- goes through transferCallToFeatureServer of lib/tasks/task.js. The answers of the database, of
-- the partner and of the hooks are events, and so are timers and the ends of sleeps; Runs has them.
-- In Dequeue, Once, Timed and Waiting hold the proofs; in Member, Early and Late do.
--
-- Conference: how lib/tasks/conference.js tells the callers on a waiting list that the conference
-- has started, one caller that starts it and any number that wait, interleaved step by step; a list
-- that cannot be retrieved and a POST to a member that fails are among the steps. Waiting, Ending
-- and Late hold the proofs.
--
-- Session: lib/session/call-session.js, as far as its list of tasks goes: the loop of exec,
-- replaceApplication, kill, _injectTasks, the redirect command, whose end after its await is a step
-- of its own, and _callReleased. The tasks are known by a number, a name and, for a config, whether
-- it disables the barge-in; what they do is chosen by the environment. Execution has the runs,
-- Counting and Starts the proofs on how often a task starts, Replacing those on a replacement.
--
-- Prelude holds what the components share. The modules named Examples hold concrete runs.
--
-- Not modelled: the rest of the call session (lib/session/call-session.js), the other verbs
-- (lib/tasks), the formats of the speech vendors (lib/utils/transcription-utils.js), the middleware
-- and the routes, and the helpers that do I/O.
pub mod Prelude
pub mod Amd
pub mod Background
pub mod Conference
pub mod Dial
pub mod Dtmf
pub mod Gather
pub mod HookDelay
pub mod MakeTask
pub mod Outdial
pub mod Queues
pub mod Requestor
pub mod Session
pub mod Sticky
pub mod SttLatency
pub mod Tracker
pub mod Transcripts
pub mod Tts
