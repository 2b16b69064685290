-- ===== src/Lib.antt =====
-- sm-rest: an asynchronous HTTP client for SourceMod. Plugins build requests; a transfer thread runs
-- them as jobs on libcurl; what happens to them goes back to the game thread as events.
--
-- The parts, and where they are modelled:
-- - Text (src/text.cpp): case, trimming and header lists. `SetHeader` is `set_header`, and so on:
--   every function keeps its name, in lower case. Strings are lists of bytes.
-- - Uri (src/uri.cpp): percent encoding, joining URLs, appending queries.
-- - Numbers: the functions of the C and C++ library that read and print numbers. Printing has fuel,
--   the number and one more, which is enough because each digit divides by ten.
-- - Request (src/request.h): the request and the client's settings, with their defaults. Integers of
--   the plugin are signed and not validated.
-- - Queue (src/main_thread_queue.cpp): the queue from the transfer thread to the game thread, with
--   its flag. The mutex makes each operation a step; Queue/Order takes any sequence of them.
-- - Job (src/job.cpp, src/job.h): one request. `RestJob` in Job/State is the object with all its
--   members; each method is a function from a job to a job. Job/Files has the upload and the ".part"
--   file, Job/Upload the reading of the upload, Job/Options the headers and options handed to curl,
--   Job/Receive the header lines and the three ways a body goes, Job/Progress the reports, Job/Retry
--   the delays, Job/Attempt the begin and the end of an attempt, Job/Finish the completion. Job/Cases
--   and Job/Success have the proof rules by outcome, Job/History the calls that the thread and curl make
--   on a job, Job/Disposal its destructor. Job/Delivery is about streamed bodies over a job's life.
-- - Thread (src/transfer_thread.cpp): the jobs, the requests from the game thread, and a round of
--   `Run` in the order of the code.
-- - Extension (src/extension.cpp, src/extension.h): the table of jobs that plugins wait for and the
--   objects behind handles. Extension/Loading has the load, Extension/Handles the end of a handle,
--   Extension/Plugins the calls of plugins, Extension/Dispatch the hand-over of events to plugins and
--   the unload; what a plugin calls from within a callback is a list in its reply. Extension/Acts has
--   histories of all this. Natives, Objects, Rules, CallRules and Acts have proof rules; Table, Idle,
--   Counting, Forwards, Orderly, Tracking and Handover lemmas; and Survival, Releases, Dropping, Once
--   and Pipeline what follows for whole dispatches and histories.
-- - Native (src/natives.cpp): what plugins call. Native has what is made of an object once the
--   handle is resolved, Native/Config the single fields, Native/Calls the natives of settings and
--   clients from the handle to the answer, Native/Sending those of requests, Native/Responses those
--   of responses, Native/Table their names. An error that is thrown at the plugin is an answer,
--   `throws`. Native/Setters has sequences of setters, Native/Settings and Native/Listing what
--   plugins read back, Native/Forms decoding, and Native/Reading the reading of a body, with as many
--   reads as the body has bytes.
-- - Tests: runs of all this at concrete inputs.
--
-- How the parts interact: a job posts events by `outbox`, which the thread puts into the queue
-- after each call on a job, in order (`visit` in Thread); it works on the files as the thread
-- hands them in. The extension puts jobs into the thread and drains its queue once a frame. The
-- thread calls jobs from its round, and curl calls them back from `perform`.
--
-- Bounds: status codes, byte counts, attempts, ids and clocks are natural numbers with no bound; the
-- counts of curl are not negative and the clock does not run back. `long` has 32 bits, as in the
-- build for i386 (cmake/sniper-i386.cmake). Where the product in `ParseRetryAfterMs` overflows, which
-- C++ leaves undefined, the delay of the retry is an argument of the step, and can be any.
-- What libcurl and the operating system answer is an argument of the step that asks: whether a file
-- opens, how much a write takes, the response code, the clock, the jitter, the pieces of the body.
-- A string that is moved from is empty.
--
-- What SourceMod answers to a native is an argument of the call (`CallContext`): whether the handle
-- may be read, the handle and the forward that it makes, whether a handle is freed.
--
-- Not modelled: the registration of natives, library, listener and frame hook with SourceMod, and
-- what it does with paths and strings; the directories made for a download; the socket side of
-- libcurl.
pub mod Prelude
pub mod Text
pub mod Uri
pub mod Numbers
pub mod Request
pub mod Queue
pub mod Job
pub mod Thread
pub mod Extension
pub mod Native
mod Tests
