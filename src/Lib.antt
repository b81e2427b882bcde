-- ===== src/Lib.antt =====
-- A model of Agent-ssh, an HTTP agent that runs shell commands for authorized clients, and what is
-- proved of it.
--
-- The program: main.go loads the configuration (internal/config), makes signing keys where there are
-- none, starts the signed log (internal/logger, internal/logentry), which replicates its entries
-- through a sender (internal/mq), the token manager (internal/auth), the executor
-- (internal/executor) and the task manager (internal/taskmanager), and serves them through
-- internal/gateway. The token manager decides who may call; the executor decides which commands run
-- and runs them; the task manager runs them in the background and keeps their results; the log
-- chains its entries by hashes and signs them.
--
-- The files:
--   Base         lists, Boolean tests, signed integers and 64-bit wrap-around, byte strings, results,
--                a file system (Base/Files), path/filepath for slash paths (Base/Path, with what it
--                guarantees in Base/Normal, Clean, Within, Beneath and Child), encoding/hex (Base/Hex),
--                zero-padded numbers (Base/Decimal) and the verb %d (Base/Printing).
--   Config       internal/config/config.go: the structs (Types), Load with applyEnvOverrides (Load),
--                ListenAddr (Listen).
--   Executor     internal/executor/executor.go: New and Validate (Filter), ResolveWorkDir (WorkDir),
--                Execute (Run), GenerateTaskID (Ids); internal/executor/executor_sys_unix.go (SysUnix) and
--                executor_sys_windows.go (SysWindows), on the processes of the system (Processes).
--   TaskManager  internal/taskmanager/taskmanager.go: the operations (Model), the deadline of a context
--                (Context), histories of events (Events).
--   Auth         internal/auth/auth.go: the manager and its files (Model), sequences of its calls
--                (History), nextRotationDelay (Schedule).
--   Logger       internal/logger/logger.go and internal/logentry/entry.go: the entry (Entry), Handle and
--                recoverLastHash (Handler), VerifyEntry and VerifyLogFile (Verifier), New, the loop of
--                dispatchLoop and Close (Lifecycle), calls of Handle at the same time (Interleaved);
--                internal/logger/signer.go with GenerateKeyPair and LoadPublicKey (Keys).
--   Mq           internal/mq: New and the constructors of the senders (Sender), Send of the file sender
--                (Spool), which the mailbox of Mq/Mailbox is the abstract view of, and Send of the others
--                (Remote).
--   Gateway      internal/gateway/gateway.go: requests and answers (Types), authMiddleware and the
--                handlers (Handlers), handleUpload with the saving of a file (Upload), the other
--                middleware and the routes (Routes), and the agent while it serves, with the
--                goroutines that main.go starts (Service).
--   Main         main.go: main with its exits, initLogger, and what is stopped at the end (Program).
-- The other files below these hold the proofs, and each Tests file runs the theorems at concrete
-- inputs.
--
-- How the model corresponds to the code. A method on shared state is a function from the state to the
-- state and its result. What a mutex makes one step is one function; Handle of the logger and runTask
-- of the task manager hold theirs twice and are two functions each. TaskManager/Events puts the steps
-- of all its goroutines into any order, Logger/Interleaved does so for Handle, and Gateway/Service for
-- requests, rotations, work on tasks and changes of files by other programs. A panic of a handler is
-- an answer that is missing, which recoverMiddleware fills in. A Go string is a list of bytes, an int an
-- unbounded integer where the code only compares it, and an int64 product wraps around at 64 bits.
-- Strings that the code trims or splits are taken as UTF-8, with the white space of unicode.IsSpace; to
-- lower case only ASCII letters are turned. Times are integers of nanoseconds. Functions are
-- structurally recursive; the verb %d alone runs on fuel, the number itself, which has no more digits
-- than it counts. Close of the log takes the number of entries that dispatchLoop still takes and the
-- number of sends that its grace period lasts for.
--
-- Other programs, and the commands that the agent runs are such, change files on their own:
-- Auth/History and Gateway/Service have events for their changes of the token file and of the files that
-- uploads see. Paths are taken as they are written: symbolic links are not followed.
--
-- Parameters of the model: yaml.Unmarshal and the reading of the configuration file; the package
-- regexp; the outcome of each system call of the token manager and of an upload; the parsing of
-- requests and forms; the process that a command makes; the JSON of a log entry and SHA-256; the
-- packages crypto/ed25519, crypto/hmac, crypto/x509 and encoding/pem (KeyOps of Logger/Keys, with
-- what is relied on in KeyLaws of Logger/Pair); the outcome of each system call of the key files, the
-- log file and the spool directory, and the layout of a time stamp; the clients of Redis and Kafka, with
-- the copies of a message that they leave and its partition; time.Date.
--
-- Not modelled: the HTTP server, signals and printing of main.go, and what Shutdown waits for; Close of
-- the Redis and Kafka senders, which only calls their clients; WithAttrs and WithGroup of the log, which
-- return the handler; the text of log messages and the console copy of the log; and a failed write to
-- the log file that leaves a part of the line there.
pub mod Base
pub mod Auth
pub mod Config
pub mod Executor
pub mod Mq
pub mod Logger
pub mod Gateway
pub mod Main
pub mod TaskManager
