-- ===== src/Lib.antt =====
-- Verification of downloadmgr, a Go library that downloads files: callers add tasks, goroutines
-- classify them and download them over several channels, and callbacks tell the caller how each
-- task ends.
--
-- The parts. A manager (downloadmgr.go) gives every task an id, keeps it in a map from ids to
-- tasks until it ends, and pushes it into a channel: quick tasks into the quick channel, normal
-- tasks into the prehandle channel. The workers of the prehandle channel ask the origin whether it
-- serves ranges and push the task into the random channel or the unpause-fast channel. The
-- workers of the four download channels (channel.go) pop tasks that may start, and let them run
-- startDownload (task.go). A task that is broken off goes into an idle list again or ends.
--
-- The files and what they model:
--   Prelude          tests, lists, integers and texts over the native numbers
--   ArrayList        the interface of the arraylist package that channel.go imports: its laws are
--                    what the package documents, and plain lists meet them
--   Task             task.go: the data, newTask, CancelDownload
--   Channel          channel.go: downloadChannel, the init functions, idleSize,
--                    pushTaskToIdleList, popRandomTask, popQueueTask
--     Channel.Order  the order of an idle list; Channel.Ready and
--                    Channel.Pop which task a pop returns
--     Channel.Check  channel.go: the closures checkDownloadingStateFunc
--   Manager          downloadmgr.go: the state; task.go: taskSuccess, taskCancel, taskFail,
--                    taskBreakOff; channel.go: handleBrokenTaskFunc
--     Manager.Places, Manager.Settle, Manager.Broken  where a task is, and how these operations
--                    move it
--     Manager.Download  task.go: startDownload; Manager.Download.Composed runs it with the client
--                    of Grab
--     Manager.Add    downloadmgr.go: NewDownloadMgr, the Add methods, GetTaskInfo,
--                    GetIdleTaskSize; error.go
--     Manager.Classify  downloadmgr.go: checkOriginResumeSupport, classify, and the bodies of the
--                    loops of classifyNewTaskLoop and, in channel.go, of run
--     Manager.Advance  the same bodies, cut into the parts between which other goroutines may
--                    come
--     Manager.System the running program: the manager and its busy workers, with events for the
--                    calls of callers (header.go: SetIgnoreHeader among them) and for the parts of
--                    the workers' work; Manager.System.Cancelled what a cancellation achieves,
--                    Manager.System.Bounded how often a task is handled, by its rank in Manager.Rank,
--                    Manager.System.Lifecycle its life, against the abstract machine of
--                    Manager.Lifecycle
--   Gauge            grab/bps/sma.go and grab/bps/bps.go: the samples behind the speed of a
--                    transfer. Gauge.Ring where the ring buffer keeps them, Gauge.Window the rate
--   Transfer         grab/transfer.go: the loop that copies a body to a file, over rounds of what
--                    context, reader and writer answer; Transfer.Copy what it stores and counts
--   Grab             the grab package's files, requests and client
--     Grab.Errors    grab/error.go
--     Grab.Names     grab/util.go: GuessFilename; Grab.Names.Plain its results
--     Grab.Response  grab/request.go, grab/response.go: Request, Response and their methods
--     Grab.Client    grab/client.go: the state functions that ask the file system and the origin;
--                    Grab.Client.Writing the others, with openFile and, of grab/util.go, mkdirp
--                    and setLastModified; Grab.Client.Machine run and Do. Grab.Client.Rank and
--                    Grab.Client.Ends: the end of every run. Grab.Client.Stored and
--                    Grab.Client.Contents: what a download leaves in the file or the buffer.
--                    Grab.Client.Unchanged and Grab.Client.Bytes: what Bytes answers of it.
--                    Grab.Client.Invariant: a way to show what every round keeps;
--                    Grab.Client.Sized: Size and Progress at the end, and Cancel
--   Restart          downloadmgr.go: safeInfiLoop, as steps of one call and the goroutines that it
--                    starts: Restart.Single their number, Restart.Recovery the steps after a panic
--   HeaderFile       header.go: the text that saveHeader writes; HeaderFile.Lines reads its lines,
--                    HeaderFile.Restored says what it is to hold, HeaderFile.Reading that it does
--   Tests            the properties at concrete inputs
--
-- How code and model correspond. A `*Task` is a number, an index into the store `tasks`; idle
-- lists, the task map and workers share tasks by these numbers. preHandleChannel and the entries
-- of the map downloadChannel are one function from channel names. The closures of a channel are
-- chosen by its name. Clocks, random numbers and what the network and the file system answer are
-- arguments of the operations. A callback is a Boolean, whether it is set; its call is recorded
-- in `calls`, newest first, with the removed files and the panics. Times are natural numbers of
-- milliseconds; ExpireTime, SizeLimit and lengths are integers. The test of a speed against a
-- limit, which is in floating point, is a function of the limit.
--
-- The client of grab is a function over a stream of answers: one value for each round of the
-- loop `run` says whether the context is cancelled by then and what the file system, the origin,
-- the hooks and the copy loop answer if the round asks them. `saved` in a response is what the
-- file or the buffer holds after the client's last action; nobody else writes to the file, and
-- Truncate, whose error the client drops, empties it. filepath.Join is a parameter of which
-- nothing is assumed; filepath.Clean and filepath.Base are read on paths that begin with a
-- slash.
--
-- Bounds. Loops are structural: over the length of a list, over the ticks of one attempt, over
-- the events of a run. Only the loop `run` of the grab client has fuel, 13 rounds for a run:
-- each round but the last lowers a rank that is 11 at the start of a download, which is why it
-- is enough. Ids are 64 bits wide, and the lookup property says for how many events they last.
-- Counts of failures and times are small against 64 bits.
--
-- Not modelled: of grab, the quotients of floats, which are parameters, labels and tags of
-- requests, headers other than the range and the user agent, and the text of a status
-- code error. The running program takes what the client of grab answers as a part of each
-- event, does not run the client, and records a panic without a restart. addDownloadTask is two
-- events, up to the Store into the task map and the push; the making of the id, which has a lock of its
-- own, and the Store are in one. What a worker does
-- behind client.Do is one step, at its end; callbacks do not call the manager. Of the program, the
-- logger, the time limits of timeoutDialer, and strings.ToLower outside of ASCII are left out. The
-- decimal notation in a header file is a parameter, which can be read back.
pub mod Prelude
pub mod ArrayList
pub mod Task
pub mod Channel
pub mod Manager
pub mod Restart
pub mod Gauge
pub mod Transfer
pub mod HeaderFile
pub mod Grab
mod Tests
